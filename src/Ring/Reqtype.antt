-- ===== src/Ring/Reqtype.antt =====
-- enum _p2pm_reqtypes_e of src/p2pm_types.h, and the two replies that p2pm_loop_server reads as
-- requests.
use synergy_wrapper.Base.{ℕ}

abbrev pub get_req : ℕ
get_req = 55

abbrev pub join_req : ℕ
join_req = 56

abbrev pub join_abrt : ℕ
join_abrt = 57

abbrev pub join_cmt : ℕ
join_cmt = 58

abbrev pub pred_join_cmt : ℕ
pred_join_cmt = 59

abbrev pub pred_join_abrt : ℕ
pred_join_abrt = 60

abbrev pub ping_req : ℕ
ping_req = 62

abbrev pub stabilize_req : ℕ
stabilize_req = 63

abbrev pub stabilize_syn_req : ℕ
stabilize_syn_req = 64

abbrev pub stabilize_nsyn_req : ℕ
stabilize_nsyn_req = 65

abbrev pub sync_slist : ℕ
sync_slist = 66

abbrev pub one_ring_join_req : ℕ
one_ring_join_req = 68

abbrev pub find_head : ℕ
find_head = 69

abbrev pub find_tail : ℕ
find_tail = 70

abbrev pub token : ℕ
token = 71

abbrev pub head_found : ℕ
head_found = 73

abbrev pub tail_found : ℕ
tail_found = 74
