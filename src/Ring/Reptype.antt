-- ===== src/Ring/Reptype.antt =====
-- enum _p2pm_reptypes_e of src/p2pm_types.h.
use synergy_wrapper.Base.{ℕ}

abbrev pub pong_rep : ℕ
pong_rep = 7

abbrev pub invalid_rep : ℕ
invalid_rep = 64

abbrev pub join_ack1 : ℕ
join_ack1 = 65

abbrev pub join_ack2 : ℕ
join_ack2 = 66

abbrev pub stabilize_ack : ℕ
stabilize_ack = 67

abbrev pub stabilize_nack : ℕ
stabilize_nack = 68

abbrev pub get_ack : ℕ
get_ack = 69

abbrev pub get_nack : ℕ
get_nack = 70

abbrev pub get_contacted_one_ring : ℕ
get_contacted_one_ring = 71

abbrev pub sync_slist_ack : ℕ
sync_slist_ack = 72
