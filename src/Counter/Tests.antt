-- ===== src/Counter/Tests.antt =====
-- c/src/lm_counter.c: a counter from 4294967295 that goes up by 1 and by 5.
use artorias.Prelude.{◌≡◌, none, some, [], ◌∷◌, arith}
use artorias.Counter.{Heap, lcf_counter_new, lcf_counter_getval}
use artorias.Counter.Laws.{add_all, lcf_counter_new-value}

abbrev heap : Heap
heap = record { val = λ p. none; recycled = []; names = [] }

up_by_six :
    let (cu, h1) = lcf_counter_new (λ h. 40) 4294967295 8 16 heap in
    (h' : Heap) × (add_all cu (1 ∷ 5 ∷ []) h1 ≡ some h') × (lcf_counter_getval cu h' ≡ some 5)
up_by_six =
    lcf_counter_new-value (λ h. 40) 4294967295 8 16 heap (1 ∷ 5 ∷ []) (λ e. ground arith)
      (λ e. ground arith)
