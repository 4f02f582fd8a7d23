-- ===== src/Layout/Width/Built.antt =====
-- The types that a run of the constructors of src/Types.cpp builds, and their sizes.
use oxide_lang_reupload.Prelude.{
  ℕ, zero, suc, ◌≤◌, ◌<◌, ◌≡◌, refl, ap, ◌≢◌, ◌⊎◌, inl, inr, Text, Bool, List, [], ◌∷◌, ◌++◌,
  Option, none, some, arith, length, get_elem?, get_elem?_lt, length-append,
}
use oxide_lang_reupload.Prelude.Int.{ℤ, pos_part}
use oxide_lang_reupload.Types.Base.{BType, array, btype_eq}
use oxide_lang_reupload.Types.Equality.{btype_eq_refl}
use oxide_lang_reupload.Types.Tables.{
  Tables, intern_type, make_array_type, make_dyn_array, make_ptr, make_set_type, make_hset_type,
  make_channel_type, make_map_type, make_hmap_type, make_fn_type, make_generic_inst, place, intern,
}
use oxide_lang_reupload.Types.Tables.Intern.{intern-Holds}
use oxide_lang_reupload.Types.Tables.Canonical.{Unary, make, dyn_array, ptr, set, hset, channel}
use oxide_lang_reupload.Types.Registry.{Registry}
use oxide_lang_reupload.Layout.Width.{field_byte_width, field_align, fuel_for}
use oxide_lang_reupload.Layout.Width.Total.{Behind, Ranked, Behind-mono, width_total, align_total}

abbrev pub empty_tables : Tables
empty_tables = record { types = []; fn_sigs = []; generic_insts = [] }

-- The tables after a run from program start, and the types at hand. A constructor takes its
-- elements from those; a type that is no array may also come from elsewhere.
pub data Built : Tables → List BType → Type 0 where
  start : Built empty_tables []
  other : {s : Tables} {ts : List BType} (t : BType) → t.tag ≢ array → Built s ts → Built s (t ∷ ts)
  array_of :
      {s : Tables} {ts : List BType} (i : ℕ) (e : BType) (n : ℤ)
      → get_elem? ts i ≡ some e
      → Built s ts
      → Built (make_array_type e n s).0 ((make_array_type e n s).1 ∷ ts)
  unary :
      {s : Tables} {ts : List BType} (k : Unary) (i : ℕ) (e : BType)
      → get_elem? ts i ≡ some e
      → Built s ts
      → Built (make k e s).0 ((make k e s).1 ∷ ts)
  map_of :
      {s : Tables} {ts : List BType} (i j : ℕ) (k v : BType)
      → get_elem? ts i ≡ some k
      → get_elem? ts j ≡ some v
      → Built s ts
      → Built (make_map_type k v s).0 ((make_map_type k v s).1 ∷ ts)
  hmap_of :
      {s : Tables} {ts : List BType} (i j : ℕ) (k v : BType)
      → get_elem? ts i ≡ some k
      → get_elem? ts j ≡ some v
      → Built s ts
      → Built (make_hmap_type k v s).0 ((make_hmap_type k v s).1 ∷ ts)
  fn_of :
      {s : Tables} {ts : List BType} (ps : List BType) (r : BType)
      → Built s ts
      → Built (make_fn_type ps r s).0 ((make_fn_type ps r s).1 ∷ ts)
  generic_of :
      {s : Tables} {ts : List BType} (b : Text) (as' : List BType) (f : Bool)
      → Built s ts
      → Built (make_generic_inst b as' f s).0 ((make_generic_inst b as' f s).1 ∷ ts)

-- Arrays stand behind their elements, in the table and among the types at hand.
record IsRanked (types : List BType) (ts : List BType) : Type 0 where
  table : Ranked types
  at_hand : (i : ℕ) (t : BType) → get_elem? ts i ≡ some t → Behind (suc (length types)) t

get_elem?-snoc {ℓ} :
    {A : Type ℓ} (xs : List A) (x : A) (i : ℕ) {y : A}
    → get_elem? (xs ++ x ∷ []) i ≡ some y
    → (get_elem? xs i ≡ some y) ⊎ ((i ≡ length xs) × (y ≡ x))
get_elem?-snoc [] x zero h = inr (refl, cc)
get_elem?-snoc [] x (suc i) h = absurd (ground arith)
get_elem?-snoc (z ∷ xs) x zero h = inl h
get_elem?-snoc (z ∷ xs) x (suc i) h = elim (get_elem?-snoc xs x i h) [
  | inl e ↦ inl e
  | inr (e, f) ↦ inr (ap suc e, f)
]

place-Ranked :
    (x : BType) (types : List BType) (o : Option ℕ)
    → Ranked types
    → Behind (suc (length types)) x
    → Ranked (place x types o).0 × (length types ≤ length (place x types o).0)
unfolding place
place-Ranked x types (some k) r b = (r, omega arith)
place-Ranked x types none r b = (
  λ i y h. elim (get_elem?-snoc types x i h) [ inl e ↦ r i y e | inr (e, f) ↦ rw (e, f) b ],
  omega (arith, length-append {0} types (x ∷ [])),
)

intern_type-Ranked :
    (e : BType) (s : Tables)
    → Ranked s.types
    → Behind (suc (length s.types)) e
    → Ranked (intern_type e s).0.types × (length s.types ≤ length (intern_type e s).0.types)
unfolding intern_type intern
intern_type-Ranked e s r b = place-Ranked e s.types _ r b

-- The position that interning returns is in the table.
intern_type-lt : (e : BType) (s : Tables) → (intern_type e s).1 < length (intern_type e s).0.types
unfolding intern_type
intern_type-lt e s =
    let (y, at, _) = intern-Holds (λ y. btype_eq y e) e s.types (btype_eq_refl e) in
    get_elem?_lt _ _ at

-- A new type joins those at hand.
join :
    {types types' ts : List BType} (t : BType)
    → IsRanked types ts
    → Ranked types' × (length types ≤ length types')
    → Behind (suc (length types')) t
    → IsRanked types' (t ∷ ts)
join {types} {types'} {ts} t h (r, grown) b = record { table = r; at_hand = hand }
  where
    hand : (i : ℕ) (u : BType) → get_elem? (t ∷ ts) i ≡ some u → Behind (suc (length types')) u
    hand zero u e = let same : t ≡ u = cc in rw (← same) b
    hand (suc i) u e =
        Behind-mono (suc (length types)) (suc (length types')) u (omega arith) (h.at_hand i u e)

not_array : (n : ℕ) (t : BType) → t.tag ≢ array → Behind n t
not_array n t h g = absurd (h g)

-- One element more in the type table, and a type of another kind at hand.
one_interned :
    {ts : List BType} (s : Tables) (e t : BType)
    → t.tag ≢ array
    → IsRanked s.types ts
    → Behind (suc (length s.types)) e
    → IsRanked (intern_type e s).0.types (t ∷ ts)
one_interned s e t g h b = join t h (intern_type-Ranked e s h.table b) (not_array _ t g)

two_interned :
    {ts : List BType} (s : Tables) (k v t : BType)
    → t.tag ≢ array
    → IsRanked s.types ts
    → Behind (suc (length s.types)) k
    → Behind (suc (length s.types)) v
    → IsRanked (intern_type v (intern_type k s).0).0.types (t ∷ ts)
two_interned s k v t g h b c =
    let s₁ = (intern_type k s).0 in
    let (r₁, grown₁) = intern_type-Ranked k s h.table b in
    let c₁ = Behind-mono (suc (length s.types)) (suc (length s₁.types)) v (omega arith) c in
    let (r₂, grown₂) = intern_type-Ranked v s₁ r₁ c₁ in join t h (r₂, omega arith) (not_array _ t g)

array_interned :
    {ts : List BType} (s : Tables) (e : BType) (n : ℤ)
    → IsRanked s.types ts
    → Behind (suc (length s.types)) e
    → IsRanked (make_array_type e n s).0.types ((make_array_type e n s).1 ∷ ts)
unfolding make_array_type
array_interned s e n h b = join _ h (intern_type-Ranked e s h.table b) λ g. (
  omega arith,
  λ m eq.
      let same : (intern_type e s).1 ≡ m = ap pos_part eq in
      omega (arith, intern_type-lt e s, same),
)

Built-IsRanked : {s : Tables} {ts : List BType} → Built s ts → IsRanked s.types ts
unfolding make make_dyn_array make_ptr make_set_type make_hset_type make_channel_type make_map_type
    make_hmap_type make_fn_type make_generic_inst
Built-IsRanked start = record {
  table = λ i y e. absurd (ground arith);
  at_hand = λ i t e. absurd (ground arith);
}
Built-IsRanked (other {s} t h b) =
    let ih = Built-IsRanked b in join t ih (ih.table, omega arith) (not_array _ t h)
Built-IsRanked (array_of {s} i e n at b) =
    let ih = Built-IsRanked b in array_interned s e n ih (ih.at_hand i e at)
Built-IsRanked (unary {s} dyn_array i e at b) =
    let ih = Built-IsRanked b in one_interned s e _ (cc) ih (ih.at_hand i e at)
Built-IsRanked (unary {s} ptr i e at b) =
    let ih = Built-IsRanked b in one_interned s e _ (cc) ih (ih.at_hand i e at)
Built-IsRanked (unary {s} set i e at b) =
    let ih = Built-IsRanked b in one_interned s e _ (cc) ih (ih.at_hand i e at)
Built-IsRanked (unary {s} hset i e at b) =
    let ih = Built-IsRanked b in one_interned s e _ (cc) ih (ih.at_hand i e at)
Built-IsRanked (unary {s} channel i e at b) =
    let ih = Built-IsRanked b in one_interned s e _ (cc) ih (ih.at_hand i e at)
Built-IsRanked (map_of {s} i j k v at at' b) =
    let ih = Built-IsRanked b in
    two_interned s k v _ (cc) ih (ih.at_hand i k at) (ih.at_hand j v at')
Built-IsRanked (hmap_of {s} i j k v at at' b) =
    let ih = Built-IsRanked b in
    two_interned s k v _ (cc) ih (ih.at_hand i k at) (ih.at_hand j v at')
Built-IsRanked (fn_of {s} ps r b) =
    let ih = Built-IsRanked b in
    join (make_fn_type ps r s).1 ih (ih.table, omega arith)
      (not_array _ (make_fn_type ps r s).1 (cc))
Built-IsRanked (generic_of {s} n as' f b) =
    let ih = Built-IsRanked b in
    join (make_generic_inst n as' f s).1 ih (ih.table, omega arith)
      (not_array _ (make_generic_inst n as' f s).1 (cc))

-- `fieldByteWidth` and `fieldAlign` end on every type that a run of the constructors builds: the
-- fuel given is enough.
pub sizes_total :
    {s : Tables} {ts : List BType} (i : ℕ) (t : BType) (r : Registry)
    → Built s ts
    → get_elem? ts i ≡ some t
    → ((w : ℤ) × (field_byte_width (fuel_for s) s r t ≡ some w))
      × ((a : ℕ) × (field_align (fuel_for s) s r t ≡ some a))
sizes_total {s} i t r b at =
    let ranked = Built-IsRanked b in
    let below = ranked.at_hand i t at in
    (
      width_total (fuel_for s) s r t (suc (length s.types)) ranked.table below (omega arith),
      align_total (fuel_for s) s r t (suc (length s.types)) ranked.table below (omega arith),
    )
