-- ===== src/Tests/Blocks.antt =====
-- A node, and two events.
use pangu.Prelude.{ℕ, ◌+◌, ◌≡◌, refl, false, List, [], ◌∷◌, Option, none, some, Returns}
use pangu.Message.{Transaction}
use pangu.Thread.Process.{count_groups}
use pangu.Thread.Calm.{IsListed, IsListed-IsCalm}
use pangu.Executor.{Chain, Node, init_header, execute_loop, commit_block, commit_block-decode}
use pangu.Executor.Blocks.{IsHealthy, count_blocks, execute_loop-count}
use pangu.Tests.Threads.{cautious, start, from_one}
use pangu.Tests.Classes.{tx_a, tx_c, keep_order}

abbrev sound_node : Node
sound_node = record {
  machine = cautious;
  signer = from_one;
  sort = keep_order;
  finalise = λ st. st;
  commit = λ st. some 7;
  state_at = λ root. start.state;
  write_block = λ c p. some (record { number = c.number + 1; root = p.root_hash });
}

sound_node-IsHealthy : IsHealthy IsListed (λ st. Unit) sound_node
sound_node-IsHealthy = record {
  sorts = λ h less txs. refl;
  commits = λ st. (7, refl);
  writes = λ c p. (record { number = c.number + 1; root = p.root_hash }, refl);
  sorts_fit = λ less txs fit. fit;
  calm = IsListed-IsCalm cautious from_one (init_header sound_node) (λ c input p st. refl);
  finalises = λ st safe. tt;
  starts = λ root. tt;
}

abbrev genesis : Chain
genesis = record { number = 0; root = 3 }

execute_loop-count_example :
    Returns
      (λ r. count_blocks 3 r.1 ≡ count_groups 3 ((tx_a ∷ tx_c ∷ []) ∷ [] ∷ (tx_c ∷ []) ∷ []))
      (execute_loop sound_node genesis ((tx_a ∷ tx_c ∷ []) ∷ [] ∷ (tx_c ∷ []) ∷ []))
execute_loop-count_example =
    execute_loop-count IsListed (λ st. Unit) sound_node sound_node-IsHealthy 3 genesis
      ((tx_a ∷ tx_c ∷ []) ∷ [] ∷ (tx_c ∷ []) ∷ [])
      (((tt, tt), ((tt, (tt, tt)), tt)), (tt, (((tt, (tt, tt)), tt), tt)))
      (((_, refl), ((_, refl), tt)), (tt, (((_, refl), tt), tt)))

-- An empty payload does not decode.
abbrev decode : List ℕ → Option Transaction
decode [] = none
decode (b ∷ bs) = some tx_a

commit_block-decode_example : (commit_block decode (λ tx. false) ([] ∷ (1 ∷ []) ∷ [])).1 ≡ false
commit_block-decode_example = commit_block-decode decode (λ tx. false) ([] ∷ []) (1 ∷ [])
