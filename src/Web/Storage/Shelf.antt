-- ===== src/Web/Storage/Shelf.antt =====
-- web/src/lib/receipt-storage.ts: the lists of entries that the module writes.
use micro_ai_paygate.Prelude.{
  ℕ, zero, suc, Text, text_eq, text_eq_iff, Bool, true, not, ◌≡◌, ◌≢◌, refl, List, [], ◌∷◌, ◌≤◌,
  filter, take, length, length-take, length-filter-le, All, All-take, Bool-cases, arith, some, ap,
  inl, inr,
}
use micro_ai_paygate.Js.Json.{Json, arr}
use micro_ai_paygate.Js.Stringify.{stringify}
use micro_ai_paygate.Js.Host.{Host}
use micro_ai_paygate.Web.Storage.{
  is_valid_entry, entry_id, without, shelve, max_entries, items, from_list, parse,
}

abbrev pub Other : Text → Json → Type 0
Other id e = entry_id e ≢ id

abbrev pub IsDistinct : List Json → Type 0
IsDistinct [] = Unit
IsDistinct (e ∷ es) = All (Other (entry_id e)) es × IsDistinct es

abbrev pub IsValid : Json → Type 0
IsValid e = is_valid_entry e ≡ true

-- No more than the bound, all of them valid, and no two for one receipt.
pub record IsShelf (entries : List Json) : Type 0 where
  pub bound : length entries ≤ max_entries
  pub valid : All IsValid entries
  pub distinct : IsDistinct entries

module _ {ℓ κ} {A : Type ℓ} (P : A → Type κ) (p : A → Bool) where
  pub All-filter : (xs : List A) → All P xs → All P (filter p xs)
  All-filter [] h = tt
  All-filter (x ∷ xs) h = elim (Bool-cases (p x)) [
    | inl kept ↦ rw kept (h.0, All-filter xs h.1)
    | inr dropped ↦ rw dropped (All-filter xs h.1)
  ]

module _ {ℓ} {A : Type ℓ} (p : A → Bool) where
  pub filter-All : (xs : List A) → All (λ x. p x ≡ true) (filter p xs)
  filter-All [] = tt
  filter-All (x ∷ xs) = elim (Bool-cases (p x)) [
    | inl kept ↦ rw kept (kept, filter-All xs)
    | inr dropped ↦ rw dropped (filter-All xs)
  ]

  filter-fixed : (xs : List A) → All (λ x. p x ≡ true) xs → filter p xs ≡ xs
  filter-fixed [] h = refl
  filter-fixed (x ∷ xs) h = rw h.0 (ap (λ t. x ∷ t) (filter-fixed xs h.1))

items-from_list : (es : List Json) → items (from_list es) ≡ es
items-from_list [] = refl
items-from_list (e ∷ es) = ap (λ t. e ∷ t) (items-from_list es)

IsDistinct-filter : (p : Json → Bool) (es : List Json) → IsDistinct es → IsDistinct (filter p es)
IsDistinct-filter p [] h = tt
IsDistinct-filter p (e ∷ es) h = elim (Bool-cases (p e)) [
  | inl kept ↦ rw kept (All-filter (Other (entry_id e)) p es h.0, IsDistinct-filter p es h.1)
  | inr dropped ↦ rw dropped (IsDistinct-filter p es h.1)
]

IsDistinct-take : (n : ℕ) (es : List Json) → IsDistinct es → IsDistinct (take n es)
IsDistinct-take zero es h = tt
IsDistinct-take (suc n) [] h = tt
IsDistinct-take (suc n) (e ∷ es) h =
    (All-take (Other (entry_id e)) n es h.0, IsDistinct-take n es h.1)

without-Other : (id : Text) (es : List Json) → All (Other id) (without id es)
unfolding without
without-Other id [] = tt
without-Other id (e ∷ es) = elim (Bool-cases (text_eq (entry_id e) id)) [
  | inl same ↦ rw same (without-Other id es)
  | inr other ↦ rw other ((λ h. ground (arith, text_eq_iff (entry_id e) id)), without-Other id es)
]

-- Removing an entry leaves a shelf.
pub without-IsShelf : (id : Text) (es : List Json) → IsShelf es → IsShelf (without id es)
unfolding without
without-IsShelf id es h =
    let kept = λ (e : Json). not (text_eq (entry_id e) id) in
    record {
      bound = omega (arith, length-filter-le kept es, h.bound);
      valid = All-filter IsValid kept es h.valid;
      distinct = IsDistinct-filter kept es h.distinct;
    }

-- Putting an entry in front makes a shelf of any list of valid entries with different ids, however
-- long it is.
pub shelve-IsShelf :
    (next : Json) (es : List Json)
    → IsValid next
    → All IsValid es
    → IsDistinct es
    → IsShelf (shelve next es)
unfolding shelve without
shelve-IsShelf next es valid all distinct =
    let kept = λ (e : Json). not (text_eq (entry_id e) (entry_id next)) in
    let others = without (entry_id next) es in
    record {
      bound = omega (arith, length-take max_entries (next ∷ others));
      valid = All-take IsValid max_entries (next ∷ others) (valid, All-filter IsValid kept es all);
      distinct =
          IsDistinct-take max_entries (next ∷ others)
            (without-Other (entry_id next) es, IsDistinct-filter kept es distinct);
    }

-- `JSON.parse` reads back what `JSON.stringify` writes for these entries.
abbrev pub Reads : Host → List Json → Type 0
Reads host es = host.parse (stringify (arr (from_list es))) ≡ some (arr (from_list es))

pub parse-written :
    (host : Host) (es : List Json)
    → Reads host es
    → All IsValid es
    → parse host (some (stringify (arr (from_list es)))) ≡ es
unfolding parse stringify
parse-written host es reads valid =
    rw (reads, items-from_list es) (filter-fixed is_valid_entry es valid)
