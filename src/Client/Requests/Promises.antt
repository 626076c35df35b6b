-- ===== src/Client/Requests/Promises.antt =====
-- The promises of requests over a whole history of calls: none is lost and none is finished twice.
use qxmpp.Common.{
  ℕ, suc, ◌+◌, ◌≡◌, refl, List, [], ◌∷◌, ◌++◌, some, arith, Text, ◌==◌, ltb, if◌then◌else◌,
}
use qxmpp.Client.Requests.{
  IqState, Requests, Results, OutgoingIqManager, initial, find, erase, cancel_each, cancel_all,
  iq_error,
}
use qxmpp.Client.Requests.Invariant.{IqCall, iq_run, IsInductive, preserved-iq_run}

-- How often the promise `n` has been finished.
abbrev pub finished_count : ℕ → Results → ℕ
finished_count n [] = 0
finished_count n ((k, r) ∷ rs) = (if k == n then 1 else 0) + finished_count n rs

-- How often it waits for a response.
abbrev pub waiting_count : ℕ → Requests → ℕ
waiting_count n [] = 0
waiting_count n ((id, st) ∷ rs) = (if st.interface == n then 1 else 0) + waiting_count n rs

-- Each promise that was made is finished or waits, once.
abbrev pub IsAccounted : ℕ → OutgoingIqManager → Type 0
IsAccounted n m =
    finished_count n m.finished + waiting_count n m.requests ≡ (if ltb n m.promises then 1 else 0)

made-suc :
    (n k : ℕ)
    → (if ltb n (suc k) then 1 else 0) ≡ (if k == n then 1 else 0) + (if ltb n k then 1 else 0)
made-suc n k = ground arith

finished-append :
    (n : ℕ) (a b : Results) → finished_count n (a ++ b) ≡ finished_count n a + finished_count n b
finished-append n [] b = omega arith
finished-append n ((k, r) ∷ a) b = omega (arith, finished-append n a b)

finished-cancel_each :
    (n : ℕ) (rs : Requests) → finished_count n (cancel_each rs) ≡ waiting_count n rs
unfolding cancel_each
finished-cancel_each n [] = refl
finished-cancel_each n ((id, st) ∷ rs) = omega (arith, finished-cancel_each n rs)

waiting-erase :
    (n : ℕ) (id : Text) (st : IqState) (rs : Requests)
    → find id rs ≡ some st
    → waiting_count n rs ≡ (if st.interface == n then 1 else 0) + waiting_count n (erase id rs)
unfolding find erase
waiting-erase n id st [] h = ground arith
waiting-erase n id st ((k, st') ∷ rs) h = ground (arith, waiting-erase n id st rs)

IsAccounted-IsInductive : (n : ℕ) → IsInductive (IsAccounted n)
unfolding cancel_all
IsAccounted-IsInductive n = record {
  settle = λ id st result m found h. omega (
    arith,
    h,
    waiting-erase n id st m.requests found,
    finished-append n m.finished ((st.interface, result) ∷ []),
  );
  ready = λ e m h. omega (
    arith,
    h,
    made-suc n m.promises,
    finished-append n m.finished ((m.promises, iq_error e) ∷ []),
  );
  add = λ id to m valid h. omega (arith, h, made-suc n m.promises);
  cancel = λ m h. omega (
    arith,
    h,
    finished-append n m.finished (cancel_each m.requests),
    finished-cancel_each n m.requests,
  );
  move = λ s ws m h. h;
}

-- After any history of calls each promise of a request that was given out is either finished once, or
-- waits for its response, once; no other promise is finished or waits.
pub iq_run-accounted :
    (to_uint : Text → ℕ) (cs : List IqCall) (n : ℕ)
    → let m = iq_run to_uint initial cs in
      finished_count n m.finished + waiting_count n m.requests ≡ (if ltb n m.promises then 1 else 0)
iq_run-accounted to_uint cs n =
    preserved-iq_run (IsAccounted n) (IsAccounted-IsInductive n) to_uint cs initial
      (unfold initial in ground arith)
