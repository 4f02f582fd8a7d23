-- ===== src/Types/Registry/Lookup.antt =====
-- Lookups after registrations, for the registries of src/Types.cpp.
use oxide_lang_reupload.Prelude.{
  ℕ, Text, text_eq, text_eq_iff, text_eq_refl, text_lt, text_lt_irrefl, text_lt_asymm, text_lt-ne,
  ◌≡◌, refl, ap, inl, inr, Bool, false, List, [], ◌∷◌, Option, some, arith, find_index, get_elem?,
  if◌then◌else◌, Bool-cases, Option-cases,
}
use oxide_lang_reupload.Prelude.Int.{ℤ, pos}
use oxide_lang_reupload.Prelude.Map.{Map, find, find-assign, IsSorted, Above, Above-find}
use oxide_lang_reupload.Types.Tables.{or_default}
use oxide_lang_reupload.Types.Tables.Intern.{find_index-Holds, find_index-none}
use oxide_lang_reupload.Types.Registry.{
  Registry, EnumDef, empty_struct, register_entry, register_struct, find_struct, find_enum,
  resolve_variant_in, resolve_enum_variant,
}

find-register_entry {ℓ} :
    {V : Type ℓ} (d : V) (name j : Text) (m : Map V)
    → find j (register_entry d name m)
      ≡ (if text_eq name j then some (or_default d (find name m)) else find j m)
find-register_entry d name j m = elim (Option-cases (find name m)) [
  | inl e ↦ rw (e, register_entry) (find-assign name j d m)
  | inr (x, e) ↦ elim (Bool-cases (text_eq name j)) [
    | inl same ↦ rw (e, register_entry) (rw same (rw (← (text_eq_iff name j).0 same) e))
    | inr other ↦ rw (e, register_entry) (rw other)
  ]
]

-- Registering a struct name keeps an entry that is there, makes an empty one otherwise, and
-- changes no other name.
pub find_struct-register_struct :
    (name j : Text) (r : Registry)
    → find_struct (register_struct name r) j ≡ (
        if text_eq name j
        then some (or_default (empty_struct name) (find_struct r name))
        else find_struct r j)
unfolding register_struct find_struct
find_struct-register_struct name j r = find-register_entry (empty_struct name) name j r.structs

abbrev names : Text → Text → Bool
names name v = text_eq v name

-- What `find_index` finds in the variants of an enum.
variant_found :
    (name : Text) (vs : List Text) (i : ℕ)
    → find_index (names name) vs ≡ some i
    → get_elem? vs i ≡ some name
variant_found name vs i h =
    let (v, at, same) = find_index-Holds (names name) vs i h in
    rw at (ap some ((text_eq_iff v name).0 same))

-- Where some enum declares the variant, the answer is an enum of the registry that declares it at
-- the position returned, and no enum that declares it has a smaller name.
pub record FirstIn (name k : Text) (m : Map EnumDef) (answer : Option EnumDef × ℤ) : Type 0 where
  pub key : Text
  pub def : EnumDef
  pub position : ℕ
  pub answered : answer ≡ (some def, pos position)
  pub registered : find key m ≡ some def
  pub declares : get_elem? def.variants position ≡ some name
  pub first : text_lt k key ≡ false

first_key :
    (k₀ k : Text) (d e : EnumDef) (m : Map EnumDef)
    → Above k₀ m
    → find k ((k₀, d) ∷ m) ≡ some e
    → text_lt k k₀ ≡ false
unfolding find
first_key k₀ k d e m a h = elim (Bool-cases (text_eq k₀ k)) [
  | inl same ↦ rw (← (text_eq_iff k₀ k).0 same) (text_lt_irrefl k₀)
  | inr other ↦ text_lt_asymm k₀ k (Above-find k₀ k m a (rw other at h))
]

-- An answer from the rest of the registry is an answer behind a smaller key too.
later :
    {name k : Text} {answer : Option EnumDef × ℤ} (k₀ : Text) (d : EnumDef) (m : Map EnumDef)
    → Above k₀ m
    → FirstIn name k m answer
    → FirstIn name k ((k₀, d) ∷ m) answer
unfolding find
later k₀ d m a f = record {
  key = f.key;
  def = f.def;
  position = f.position;
  answered = f.answered;
  declares = f.declares;
  first = f.first;
  registered = rw (text_lt-ne k₀ f.key (Above-find k₀ f.key m a f.registered)) f.registered;
}

resolve_variant_in-FirstIn :
    (name k : Text) (m : Map EnumDef) (j : ℕ) {e : EnumDef}
    → IsSorted m
    → find k m ≡ some e
    → get_elem? e.variants j ≡ some name
    → FirstIn name k m (resolve_variant_in name m)
unfolding resolve_variant_in find
resolve_variant_in-FirstIn name k [] j s h v = absurd (ground arith)
resolve_variant_in-FirstIn name k ((k₀, d) ∷ m) j {e} (a, s) h v =
    elim (Option-cases (find_index (names name) d.variants)) [
      | inl missing ↦ elim (Bool-cases (text_eq k₀ k)) [
        | inl same ↦
            let here : d ≡ e = cc (rw same at h) in
            cc (
              text_eq_refl name,
              find_index-none (names name) d.variants j {y = name} missing (rw here v),
            )
        | inr other ↦
            rw missing (later k₀ d m a (resolve_variant_in-FirstIn name k m j s (rw other at h) v))
      ]
      | inr (i, found) ↦ rw found (record {
        key = k₀;
        def = d;
        position = i;
        answered = refl;
        registered = rw (text_eq_refl k₀);
        declares = variant_found name d.variants i found;
        first = first_key k₀ k d e m a h;
      })
    ]

-- Where some enum declares a variant, `resolveEnumVariant` gives an enum of the registry with the
-- variant at the position returned, and no enum that declares it has a smaller name.
pub resolve_enum_variant-FirstIn :
    (r : Registry) (name k : Text) (j : ℕ) {e : EnumDef}
    → IsSorted r.enums
    → find_enum r k ≡ some e
    → get_elem? e.variants j ≡ some name
    → FirstIn name k r.enums (resolve_enum_variant r name)
unfolding resolve_enum_variant find_enum
resolve_enum_variant-FirstIn r name k j s h v = resolve_variant_in-FirstIn name k r.enums j s h v
