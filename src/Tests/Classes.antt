-- ===== src/Tests/Classes.antt =====
-- Three transactions and their groups.
use pangu.Prelude.{
  ℕ, ◌+◌, ◌≡◌, ◌<◌, refl, Bool, true, false, List, [], ◌∷◌, none, some, arith, Returns,
}
use pangu.AccessList.{Index, no_slots, AccessList}
use pangu.Message.{Transaction}
use pangu.Thread.Account.{count_txs}
use pangu.Thread.Process.{count_groups}
use pangu.Classify.{
  address, is_conflict, merge_access_list, group_less, classify_tx, panicked, select_txs,
}
use pangu.Classify.Groups.{classify_tx-count, classify_tx-separated}
use pangu.Classify.Select.{count_queued, select_txs-panicked}

abbrev listing : List (ℕ × Index) → AccessList
listing entries = record { addresses = entries; slots = [] }

abbrev using : ℕ → List (ℕ × Index) → Transaction
using h entries = record {
  hash = h;
  to = none;
  nonce = h;
  value = 0;
  gas_limit = 21000;
  fee_cap = 10 + h;
  tip_cap = 1;
  payload = [];
  access_list = some (listing entries);
}

abbrev pub tx_a : Transaction
tx_a = using 1 ((10, no_slots) ∷ [])

abbrev tx_b : Transaction
tx_b = using 2 ((20, no_slots) ∷ [])

abbrev pub tx_c : Transaction
tx_c = using 3 ((10, no_slots) ∷ (20, no_slots) ∷ [])

abbrev pub keep_order : (Transaction → Transaction → Bool) → List Transaction → List Transaction
keep_order less txs = txs

abbrev sender_one : Transaction → ℕ
sender_one tx = 1

resources_a : merge_access_list tx_a.access_list ≡ some (address 10 ∷ [])
unfolding merge_access_list
resources_a = refl

resources_b : merge_access_list tx_b.access_list ≡ some (address 20 ∷ [])
unfolding merge_access_list
resources_b = refl

resources_c : merge_access_list tx_c.access_list ≡ some (address 10 ∷ address 20 ∷ [])
unfolding merge_access_list
resources_c = refl

apart : is_conflict (address 10 ∷ []) (address 20 ∷ []) ≡ false
unfolding is_conflict
apart = refl

first_third : is_conflict (address 10 ∷ []) (address 10 ∷ address 20 ∷ []) ≡ true
unfolding is_conflict
first_third = refl

second_third : is_conflict (address 20 ∷ []) (address 10 ∷ address 20 ∷ []) ≡ true
unfolding is_conflict
second_third = refl

classify_tx-separated_example :
    classify_tx keep_order sender_one (tx_a ∷ tx_b ∷ tx_c ∷ [])
    ≡ some (
        keep_order (group_less sender_one) (tx_a ∷ [])
        ∷ keep_order (group_less sender_one) (tx_b ∷ tx_c ∷ [])
        ∷ [])
classify_tx-separated_example =
    classify_tx-separated keep_order sender_one tx_a tx_b tx_c (address 10 ∷ []) (address 20 ∷ [])
      (address 10 ∷ address 20 ∷ []) resources_a resources_b resources_c apart first_third
      second_third

classify_tx-count_example :
    Returns
      (λ groups. count_groups 3 groups ≡ count_txs 3 (tx_a ∷ tx_c ∷ []))
      (classify_tx keep_order sender_one (tx_a ∷ tx_c ∷ []))
classify_tx-count_example =
    classify_tx-count keep_order sender_one 3 (tx_a ∷ tx_c ∷ []) (λ less xs. refl)
      ((tt, tt), ((tt, (tt, tt)), tt))

queued_low : count_queued ((1, tx_a ∷ tx_b ∷ []) ∷ (2, tx_c ∷ []) ∷ []) < 4
unfolding count_queued
queued_low = omega arith

select_txs-panicked_example :
    select_txs 4 ((1, tx_a ∷ tx_b ∷ []) ∷ (2, tx_c ∷ []) ∷ []) 30000 ≡ panicked
select_txs-panicked_example =
    select_txs-panicked ((1, tx_a ∷ tx_b ∷ []) ∷ (2, tx_c ∷ []) ∷ []) 30000 4 queued_low
