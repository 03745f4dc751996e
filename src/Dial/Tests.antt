-- ===== src/Dial/Tests.antt =====
-- Runs of a dial over a pool.

use easy_proxies_v.Base.{
  List, String, String_eq, [], false, if◌then◌else◌, none, pos, refl, some, true, ℕ, ◌==◌, ◌∷◌, ◌≡◌,
}
use easy_proxies_v.Dial.Attempt.{
  Answer, connected_to, dial_context, dial_loop, failed, next_member, no_healthy,
}
use easy_proxies_v.Dial.Select.{
  Dispatch, MemberRef, Snapshot, first_candidate, index_of, index_of_current, least_active,
  mode_balance, mode_fixed, next_fixed_index, rotate, selection_index,
}
use easy_proxies_v.Dial.Tries.{Tries, dial_context-Tries}

abbrev member_of : ℕ → String → ℕ → MemberRef
member_of address tag active = record {
  address = address;
  tag = tag;
  node_id = pos address;
  active = active;
  latency_ms = pos 0;
}

abbrev three : List MemberRef
three = member_of 1 "a" 4 ∷ member_of 2 "b" 2 ∷ member_of 3 "c" 3 ∷ []

abbrev three_members : Snapshot
three_members = record {
  members = three;
  tcp_members = three;
  udp_members = [];
  all_members = three;
}

abbrev balanced : Dispatch
balanced = record { mode = mode_balance; current = none; round_robin = 0; random = 0 }

-- The first dial fails, with an error that counts against the member.
abbrev second_answers : MemberRef → Answer
second_answers member = if member.tag == "b" then failed true else connected_to

dial_balanced :
    (dial_context second_answers balanced three_members false).tried
    ≡ member_of 2 "b" 2 ∷ member_of 3 "c" 3 ∷ []
unfolding dial_context dial_loop next_member selection_index least_active
dial_balanced = refl

dial_udp : (dial_context second_answers balanced three_members true).outcome ≡ no_healthy
unfolding dial_context
dial_udp = refl

abbrev fixed_after_b : Dispatch
fixed_after_b = record {
  mode = mode_fixed;
  current = some (member_of 2 "b" 2);
  round_robin = 0;
  random = 0;
}

-- The current member is out of the candidates, so its successor in the topology is next.
fixed_moves_on :
    selection_index fixed_after_b three_members (member_of 1 "a" 4 ∷ member_of 3 "c" 3 ∷ []) ≡ 1
unfolding selection_index index_of_current next_fixed_index index_of first_candidate
fixed_moves_on = refl

dial_context-Tries_example :
    Tries
      (rotate (selection_index balanced three_members three) three)
      (dial_context second_answers balanced three_members false)
dial_context-Tries_example = dial_context-Tries second_answers balanced three_members false
