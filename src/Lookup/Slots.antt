-- ===== src/Lookup/Slots.antt =====
-- The slots of the pool are those of its transactions, and no transaction is both local and remote.
use pangu.Prelude.{
  ℕ, ◌+◌, ◌≡◌, refl, sym, ap, ◌∙◌, subst, Bool, true, false, Option, none, some, List, [], ◌∷◌,
  ◌==◌, ==_iff, if◌then◌else◌, lookup, insert, delete, lookup-insert, lookup-delete, arith,
  Option-cases, Bool-cases, inl, inr,
}
use pangu.Prelude.Int.{pos, int_laws}
use pangu.Validation.{Received}
use pangu.Lookup.{Lookup, new_lookup, num_slots, get, add, remove}

-- The slots of the transactions in a map.
unfoldable pub slots_of : List (ℕ × Received) → ℕ
slots_of [] = 0
slots_of ((hash, r) ∷ m) = num_slots r + slots_of m

-- No hash stands twice.
unfoldable pub IsDistinct : List (ℕ × Received) → Type 0
IsDistinct [] = Unit
IsDistinct ((hash, r) ∷ m) = (lookup hash m ≡ none) × IsDistinct m

abbrev slots_at : Option Received → ℕ
slots_at none = 0
slots_at (some r) = num_slots r

pub slots_of-insert_new :
    (hash : ℕ) (r : Received) (m : List (ℕ × Received))
    → lookup hash m ≡ none
    → slots_of (insert hash r m) ≡ slots_of m + num_slots r
unfolding slots_of lookup insert
slots_of-insert_new hash r [] h = omega arith
slots_of-insert_new hash r ((k, s) ∷ m) h = ground (arith, slots_of-insert_new hash r m)

delete_absent : (k : ℕ) (m : List (ℕ × Received)) → lookup k m ≡ none → delete k m ≡ m
unfolding lookup delete
delete_absent k [] h = refl
delete_absent k ((i, u) ∷ m) h = ground (arith, delete_absent k m)

slots_of-delete :
    (hash : ℕ) (m : List (ℕ × Received))
    → IsDistinct m
    → slots_of (delete hash m) + slots_at (lookup hash m) ≡ slots_of m
unfolding slots_of lookup delete IsDistinct
slots_of-delete hash [] d = refl
slots_of-delete hash ((k, s) ∷ m) d =
    let ih = slots_of-delete hash m d.1 in
    elim (Bool-cases (k == hash)) [
      | inl t ↦
          let k_is : k ≡ hash = (==_iff k hash).0 t in
          let gone : lookup hash m ≡ none = subst (λ i. lookup i m ≡ none) k_is d.0 in
          let same = delete_absent hash m gone in ground arith
      | inr t ↦ ground arith
    ]

pub insert_new-IsDistinct :
    (hash : ℕ) (r : Received) (m : List (ℕ × Received))
    → lookup hash m ≡ none
    → IsDistinct m
    → IsDistinct (insert hash r m)
unfolding lookup insert IsDistinct
insert_new-IsDistinct hash r [] h d = (refl, tt)
insert_new-IsDistinct hash r ((k, s) ∷ m) h d =
    let ih = λ (g : lookup hash m ≡ none). insert_new-IsDistinct hash r m g d.1 in
    let there = lookup-insert hash k r m in
    elim (Bool-cases (k == hash)) [
      | inl t ↦ ground arith
      | inr t ↦
          let g : lookup hash m ≡ none = ground arith in
          let apart : (hash == k) ≡ false = ground arith in
          rw t (there ∙ ap (λ c. if c then some r else lookup k m) apart ∙ d.0, ih g)
    ]

delete-IsDistinct : (hash : ℕ) (m : List (ℕ × Received)) → IsDistinct m → IsDistinct (delete hash m)
unfolding delete IsDistinct
delete-IsDistinct hash [] d = tt
delete-IsDistinct hash ((k, s) ∷ m) d =
    let ih = delete-IsDistinct hash m d.1 in
    let there = lookup-delete hash k m in
    elim (Bool-cases (k == hash)) [
      | inl t ↦ rw t ih
      | inr t ↦
          let apart : (hash == k) ≡ false = ground arith in
          rw t (there ∙ ap (λ c. if c then none else lookup k m) apart ∙ d.0, ih)
    ]

pub record IsValid (l : Lookup) : Type 0 where
  pub local_once : IsDistinct l.locals
  pub remote_once : IsDistinct l.remotes
  pub apart :
      (hash : ℕ) (r : Received) → lookup hash l.remotes ≡ some r → lookup hash l.locals ≡ none
  pub counted : l.slots ≡ pos (slots_of l.locals + slots_of l.remotes)

pub new-IsValid : IsValid new_lookup
unfolding new_lookup slots_of IsDistinct lookup
new-IsValid = record { local_once = tt; remote_once = tt; apart = λ hash r h. refl; counted = refl }

unknown :
    (l : Lookup) (hash : ℕ)
    → get l hash ≡ none
    → (lookup hash l.locals ≡ none) × (lookup hash l.remotes ≡ none)
unfolding get
unknown l hash h = (ground arith, ground arith)

pub add-IsValid :
    (l : Lookup) (r : Received) (local : Bool)
    → get l r.tx.hash ≡ none
    → IsValid l
    → IsValid (add l r local)
unfolding add
add-IsValid l r true g v =
    let (a, b) = unknown l r.tx.hash g in
    record {
      local_once = insert_new-IsDistinct r.tx.hash r l.locals a v.local_once;
      remote_once = v.remote_once;
      apart = λ hash s h. (elim (Bool-cases (r.tx.hash == hash)) [
        | inl t ↦
            let k = (==_iff r.tx.hash hash).0 t in
            cc (sym h ∙ subst (λ k. lookup k l.remotes ≡ none) k b)
        | inr t ↦
            lookup-insert r.tx.hash hash r l.locals
            ∙ ap (λ c. if c then some r else lookup hash l.locals) t
            ∙ v.apart hash s h
      ]);
      counted =
          let n = slots_of-insert_new r.tx.hash r l.locals a in
          let c = v.counted in rw (n, c) (omega int_laws);
    }
add-IsValid l r false g v =
    let (a, b) = unknown l r.tx.hash g in
    record {
      local_once = v.local_once;
      remote_once = insert_new-IsDistinct r.tx.hash r l.remotes b v.remote_once;
      apart = λ hash s h. (elim (Bool-cases (r.tx.hash == hash)) [
        | inl t ↦ let k = (==_iff r.tx.hash hash).0 t in subst (λ k. lookup k l.locals ≡ none) k a
        | inr t ↦ v.apart hash s (
            sym (
              lookup-insert r.tx.hash hash r l.remotes
              ∙ ap (λ c. if c then some r else lookup hash l.remotes) t)
            ∙ h)
      ]);
      counted =
          let n = slots_of-insert_new r.tx.hash r l.remotes b in
          let c = v.counted in rw (n, c) (omega int_laws);
    }

found_slots :
    (l : Lookup) (hash : ℕ) (r : Received)
    → get l hash ≡ some r
    → IsValid l
    → slots_at (lookup hash l.locals) + slots_at (lookup hash l.remotes) ≡ num_slots r
unfolding get
found_slots l hash r g v = elim (Option-cases (lookup hash l.remotes)) [
  | inl p ↦ ground arith
  | inr (s, p) ↦ let q = v.apart hash s p in ground arith
]

apart-delete :
    (l : Lookup) (hash k : ℕ) (s : Received)
    → IsValid l
    → lookup k (delete hash l.remotes) ≡ some s
    → lookup k (delete hash l.locals) ≡ none
apart-delete l hash k s v h = elim (Bool-cases (hash == k)) [
  | inl t ↦ lookup-delete hash k l.locals ∙ ap (λ c. if c then none else lookup k l.locals) t
  | inr t ↦
      lookup-delete hash k l.locals
      ∙ ap (λ c. if c then none else lookup k l.locals) t
      ∙ v.apart k s (
          sym (lookup-delete hash k l.remotes ∙ ap (λ c. if c then none else lookup k l.remotes) t)
          ∙ h)
]

pub remove-IsValid : (l : Lookup) (hash : ℕ) → IsValid l → IsValid (remove l hash)
unfolding remove
remove-IsValid l hash v = elim (Option-cases (get l hash)) [
  | inl g ↦ rw (g, remove) v
  | inr (r, g) ↦
      let a = slots_of-delete hash l.locals v.local_once in
      let b = slots_of-delete hash l.remotes v.remote_once in
      let n = found_slots l hash r g v in
      let c = v.counted in
      rw (g, remove)
        (record {
          local_once = delete-IsDistinct hash l.locals v.local_once;
          remote_once = delete-IsDistinct hash l.remotes v.remote_once;
          apart = λ k s h. apart-delete l hash k s v h;
          counted = rw c (omega int_laws);
        })
]
