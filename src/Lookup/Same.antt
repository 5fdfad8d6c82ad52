-- ===== src/Lookup/Same.antt =====
-- Making remote transactions local does not change what is found under a hash.
use mathlib.Core.Path.{fun_ext}
use pangu.Prelude.{
  ℕ, ◌≡◌, refl, ap, ◌∙◌, subst, Bool, Option, none, some, List, [], ◌∷◌, ◌==◌, ==_iff,
  if◌then◌else◌, lookup, insert, lookup-insert, arith, Bool-cases, inl, inr,
}
use pangu.Prelude.Int.{pos}
use pangu.Message.{Transaction}
use pangu.Validation.{Received}
use pangu.Lookup.{Lookup, get, contains_tx, migrate, remote_to_locals}
use pangu.Lookup.Slots.{IsDistinct, insert_new-IsDistinct, IsValid}
use pangu.Lookup.Moves.{differ, lookup-cons}

abbrev two : List (ℕ × Received) → List (ℕ × Received) → Lookup
two ls rs = record { slots = pos 0; locals = ls; remotes = rs }

found_moved :
    (ls rs : List (ℕ × Received)) (hash h : ℕ) (r : Received)
    → lookup hash ls ≡ none
    → get (two (insert hash r ls) rs) h ≡ get (two ls ((hash, r) ∷ rs)) h
unfolding get lookup
found_moved ls rs hash h r new = elim (Bool-cases (hash == h)) [
  | inl f ↦
      let gone : lookup h ls ≡ none = subst (λ i. lookup i ls ≡ none) ((==_iff hash h).0 f) new in
      ground (arith, lookup-insert hash h r ls)
  | inr f ↦ ground (arith, lookup-insert hash h r ls)
]

found_stayed :
    (ls rs ls' rs' : List (ℕ × Received)) (hash h : ℕ) (r : Received)
    → lookup hash ls ≡ none
    → lookup hash rs ≡ none
    → ((i : ℕ) → get (two ls' rs') i ≡ get (two ls rs) i)
    → get (two ls' ((hash, r) ∷ rs')) h ≡ get (two ls ((hash, r) ∷ rs)) h
unfolding get lookup
found_stayed ls rs ls' rs' hash h r new once ih = elim (Bool-cases (hash == h)) [
  | inl f ↦
      let same = (==_iff hash h).0 f in
      let gone : lookup h ls ≡ none = subst (λ i. lookup i ls ≡ none) same new in
      let none_left : lookup h rs ≡ none = subst (λ i. lookup i rs ≡ none) same once in
      let e = ih h in let gone' : lookup h ls' ≡ none = ground arith in ground arith
  | inr f ↦ let e = ih h in ground arith
]

migrate-get :
    (is_local : Transaction → Bool) (ls rs : List (ℕ × Received))
    → IsDistinct ls
    → IsDistinct rs
    → ((k : ℕ) (s : Received) → lookup k rs ≡ some s → lookup k ls ≡ none)
    → (h : ℕ)
    → get (two (migrate is_local ls rs).0 (migrate is_local ls rs).1) h ≡ get (two ls rs) h
unfolding migrate IsDistinct
migrate-get is_local ls [] d e a h = refl
migrate-get is_local ls ((hash, r) ∷ rs) d e a h =
    let new : lookup hash ls ≡ none = a hash r (
      lookup-cons hash hash r rs
      ∙ ap (λ c. if c then some r else lookup hash rs) ((==_iff hash hash).1 refl)) in
    let rest = λ (k : ℕ) (s : Received) (g : lookup k rs ≡ some s). a k s (
      lookup-cons k hash r rs
      ∙ ap (λ c. if c then some r else lookup k rs) (differ hash k r s rs e.0 g)
      ∙ g) in
    elim (Bool-cases (is_local r.tx)) [
      | inl t ↦
          rw (t, migrate)
            (migrate-get is_local (insert hash r ls) rs (insert_new-IsDistinct hash r ls new d) e.1
                (λ k s g.
                  lookup-insert hash k r ls
                  ∙ ap (λ c. if c then some r else lookup k ls) (differ hash k r s rs e.0 g)
                  ∙ rest k s g)
                h
              ∙ found_moved ls rs hash h r new)
      | inr t ↦
          rw (t, migrate)
            (found_stayed ls rs _ _ hash h r new e.0 (migrate-get is_local ls rs d e.1 rest))
    ]

-- `RemoteToLocals` changes no transaction that the lookup has under a hash.
pub get-remote_to_locals :
    (signer : Transaction → Option ℕ) (accounts : List ℕ) (l : Lookup)
    → IsValid l
    → get (remote_to_locals signer accounts l).0 ≡ get l
unfolding remote_to_locals get
get-remote_to_locals signer accounts l v = fun_ext λ h.
    migrate-get (contains_tx signer accounts) l.locals l.remotes v.local_once v.remote_once v.apart
      h
