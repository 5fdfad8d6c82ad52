-- ===== src/Lookup/Moves.antt =====
-- Making remote transactions local, and whatever the pool does to its lookup.
use pangu.Prelude.{
  ℕ, ◌+◌, ◌≡◌, refl, sym, ap, ◌∙◌, subst, Bool, false, Option, none, some, List, [], ◌∷◌, ◌==◌,
  ==_iff, if◌then◌else◌, lookup, insert, lookup-insert, arith, Option-cases, Bool-cases, inl, inr,
}
use pangu.Prelude.Int.{pos}
use pangu.Message.{Transaction}
use pangu.Validation.{Received}
use pangu.Lookup.{
  Lookup, get, remove, contains_tx, migrate, remote_to_locals, Op, receive_op, remove_op,
  to_locals_op, receive, run,
}
use pangu.Lookup.Slots.{
  slots_of, IsDistinct, slots_of-insert_new, insert_new-IsDistinct, IsValid, add-IsValid,
  remove-IsValid,
}

pub lookup-cons :
    (k hash : ℕ) (r : Received) (m : List (ℕ × Received))
    → lookup k ((hash, r) ∷ m) ≡ (if hash == k then some r else lookup k m)
unfolding lookup
lookup-cons k hash r m = refl

-- What the loop leaves.
record Migrated (ls rs ls' rs' : List (ℕ × Received)) : Type 0 where
  local_once : IsDistinct ls'
  remote_once : IsDistinct rs'
  apart : (k : ℕ) (s : Received) → lookup k rs' ≡ some s → lookup k ls' ≡ none
  counted : slots_of ls' + slots_of rs' ≡ slots_of ls + slots_of rs
  remote_kept : (k : ℕ) → lookup k rs ≡ none → lookup k rs' ≡ none
  local_kept : (k : ℕ) → lookup k rs ≡ none → lookup k ls' ≡ lookup k ls

pub differ :
    (hash k : ℕ) (r s : Received) (m : List (ℕ × Received))
    → lookup hash m ≡ none
    → lookup k m ≡ some s
    → (hash == k) ≡ false
differ hash k r s m h g = elim (Bool-cases (hash == k)) [
  | inl t ↦ cc (sym (subst (λ i. lookup i m ≡ none) ((==_iff hash k).0 t) h) ∙ g)
  | inr t ↦ t
]

missed :
    (hash k : ℕ) (r : Received) (m : List (ℕ × Received))
    → lookup k ((hash, r) ∷ m) ≡ none
    → ((hash == k) ≡ false) × (lookup k m ≡ none)
unfolding lookup
missed hash k r m h = (ground arith, ground arith)

moved :
    (hash : ℕ) (r : Received) (ls rs ls' rs' : List (ℕ × Received))
    → lookup hash ls ≡ none
    → Migrated (insert hash r ls) rs ls' rs'
    → Migrated ls ((hash, r) ∷ rs) ls' rs'
unfolding slots_of
moved hash r ls rs ls' rs' new p = record {
  local_once = p.local_once;
  remote_once = p.remote_once;
  apart = p.apart;
  counted = let n = slots_of-insert_new hash r ls new in let c = p.counted in omega arith;
  remote_kept = λ k h. p.remote_kept k (missed hash k r rs h).1;
  local_kept = λ k h.
      p.local_kept k (missed hash k r rs h).1
      ∙ lookup-insert hash k r ls
      ∙ ap (λ c. if c then some r else lookup k ls) (missed hash k r rs h).0;
}

stayed :
    (hash : ℕ) (r : Received) (ls rs ls' rs' : List (ℕ × Received))
    → lookup hash ls ≡ none
    → lookup hash rs ≡ none
    → Migrated ls rs ls' rs'
    → Migrated ls ((hash, r) ∷ rs) ls' ((hash, r) ∷ rs')
unfolding slots_of IsDistinct lookup
stayed hash r ls rs ls' rs' new once p = record {
  local_once = p.local_once;
  remote_once = (p.remote_kept hash once, p.remote_once);
  apart = λ k s h. (elim (Bool-cases (hash == k)) [
    | inl t ↦ subst (λ i. lookup i ls' ≡ none) ((==_iff hash k).0 t) (p.local_kept hash once ∙ new)
    | inr t ↦ p.apart k s (sym (ap (λ c. if c then some r else lookup k rs') t) ∙ h)
  ]);
  counted = let c = p.counted in omega arith;
  remote_kept = λ k h.
      let (t, g) = missed hash k r rs h in
      ap (λ c. if c then some r else lookup k rs') t ∙ p.remote_kept k g;
  local_kept = λ k h. p.local_kept k (missed hash k r rs h).1;
}

migrate-Migrated :
    (is_local : Transaction → Bool) (ls rs : List (ℕ × Received))
    → IsDistinct ls
    → IsDistinct rs
    → ((k : ℕ) (s : Received) → lookup k rs ≡ some s → lookup k ls ≡ none)
    → Migrated ls rs (migrate is_local ls rs).0 (migrate is_local ls rs).1
unfolding migrate IsDistinct slots_of
migrate-Migrated is_local ls [] d e a = record {
  local_once = d;
  remote_once = tt;
  apart = a;
  counted = refl;
  remote_kept = λ k h. h;
  local_kept = λ k h. refl;
}
migrate-Migrated is_local ls ((hash, r) ∷ rs) d e a =
    let new : lookup hash ls ≡ none = a hash r (
      lookup-cons hash hash r rs
      ∙ ap (λ c. if c then some r else lookup hash rs) ((==_iff hash hash).1 refl)) in
    let rest = λ (k : ℕ) (s : Received) (h : lookup k rs ≡ some s). a k s (
      lookup-cons k hash r rs
      ∙ ap (λ c. if c then some r else lookup k rs) (differ hash k r s rs e.0 h)
      ∙ h) in
    elim (Bool-cases (is_local r.tx)) [
      | inl t ↦
          rw (t, migrate)
            (moved hash r ls rs _ _ new (
              migrate-Migrated is_local (insert hash r ls) rs
                (insert_new-IsDistinct hash r ls new d) e.1
                (λ k s h.
                  lookup-insert hash k r ls
                  ∙ ap (λ c. if c then some r else lookup k ls) (differ hash k r s rs e.0 h)
                  ∙ rest k s h)))
      | inr t ↦
          rw (t, migrate)
            (stayed hash r ls rs _ _ new e.0 (migrate-Migrated is_local ls rs d e.1 rest))
    ]

pub remote_to_locals-IsValid :
    (signer : Transaction → Option ℕ) (accounts : List ℕ) (l : Lookup)
    → IsValid l
    → IsValid (remote_to_locals signer accounts l).0
unfolding remote_to_locals
remote_to_locals-IsValid signer accounts l v =
    let p =
      migrate-Migrated (contains_tx signer accounts) l.locals l.remotes v.local_once v.remote_once
        v.apart in
    record {
      local_once = p.local_once;
      remote_once = p.remote_once;
      apart = p.apart;
      counted = v.counted ∙ ap pos (sym p.counted);
    }

receive-IsValid :
    (l : Lookup) (r : Received) (local : Bool) → IsValid l → IsValid (receive l r local)
unfolding receive
receive-IsValid l r local v = elim (Option-cases (get l r.tx.hash)) [
  | inl g ↦ rw (g, receive) (add-IsValid l r local g v)
  | inr (s, g) ↦ rw (g, receive) v
]

-- Whatever the pool does to it, the count of slots stays the sum of the slots of the local and the
-- remote transactions, no hash stands twice, and none is both local and remote.
pub run-IsValid :
    (signer : Transaction → Option ℕ) (ops : List Op) (l : Lookup)
    → IsValid l
    → IsValid (run signer ops l)
unfolding run
run-IsValid signer [] l v = v
run-IsValid signer (receive_op r local ∷ ops) l v =
    run-IsValid signer ops (receive l r local) (receive-IsValid l r local v)
run-IsValid signer (remove_op hash ∷ ops) l v =
    run-IsValid signer ops (remove l hash) (remove-IsValid l hash v)
run-IsValid signer (to_locals_op accounts ∷ ops) l v =
    run-IsValid signer ops (remote_to_locals signer accounts l).0
      (remote_to_locals-IsValid signer accounts l v)
