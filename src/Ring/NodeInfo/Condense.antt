-- ===== src/Ring/NodeInfo/Condense.antt =====
-- What _p2pm_ni_condense_successor_list of src/p2pm_node_info.c leaves in the list.
use synergy_wrapper.Base.{
  ℕ, zero, suc, ◌+◌, ◌≤◌, ◌<◌, ◌≡◌, refl, List, [], ◌∷◌, false, if◌then◌else◌, leb, length, get_or,
  set, arith, ap, sym,
}
use synergy_wrapper.Ring.Types.{Bytes, NodeInfo}
use synergy_wrapper.Ring.NodeInfo.{Scan, condense_step, condense_loop, condense}

set_twice {ℓ} : {A : Type ℓ} (xs : List A) (i : ℕ) (v w : A) → set (set xs i v) i w ≡ set xs i w
set_twice [] i v w = refl
set_twice (x ∷ xs) zero v w = refl
set_twice (x ∷ xs) (suc i) v w = ap (λ l. x ∷ l) (set_twice xs i v w)

-- Past slot 1 the scan does nothing more.
condense_loop_idle : (n ptr : ℕ) (s : Scan) → 0 < ptr → s.ok ≡ false → condense_loop n ptr s ≡ s
unfolding condense_loop condense_step
condense_loop_idle zero ptr s h e = refl
condense_loop_idle (suc n) ptr s h e = ground (arith, condense_loop_idle n (ptr + 1) s)

condense_loop_lem : (n : ℕ) (s : Scan) → (condense_loop (suc (suc n)) 0 s).slots ≡ set s.slots 1 []
unfolding condense_loop condense_step
condense_loop_lem n s =
    rw
      (condense_loop_idle n 2
        (record { eptr = 0; ok = false; slots = set (set s.slots 1 (get_or s.slots 0 [])) 1 [] })
        (omega arith) refl)
      (set_twice s.slots 1 _ [])

set_short : (xs : List Bytes) (v : Bytes) → length xs ≤ 1 → set xs 1 v ≡ xs
set_short [] v h = refl
set_short (x ∷ []) v h = refl
set_short (x ∷ y ∷ xs) v h = absurd (omega arith)

condense_slots :
    (n : ℕ) (xs : List Bytes)
    → length xs ≡ n
    → (condense_loop n 0 (record { eptr = 0; ok = false; slots = xs })).slots ≡ set xs 1 []
unfolding condense_loop condense_step
condense_slots zero xs h = sym (set_short xs [] (omega arith))
condense_slots (suc zero) xs h = sym (set_short xs [] (omega arith))
condense_slots (suc (suc n)) xs h =
    condense_loop_lem n (record { eptr = 0; ok = false; slots = xs })

-- The list keeps its slots but for slot 1, which is cleared whenever `r` is below `r_max`; nothing
-- is moved towards the front.
pub condense_lem :
    (self : NodeInfo)
    → length self.successor_list ≡ self.r_max
    → condense self ≡ (
        if leb self.r_max self.r
        then self
        else record self { successor_list = set self.successor_list 1 [] })
unfolding condense
condense_lem self h = ground (arith, condense_slots self.r_max self.successor_list h)
