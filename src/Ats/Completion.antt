-- ===== src/Ats/Completion.antt =====
-- What the completion and the timeout of invalidation requests set free: `do_pending_iofence`,
-- `queue_any_blocked_ats_inval_req` (iommu_command_queue.c), `do_pending_iofence_inval_reqs`,
-- `handle_invalidation_completion` and `do_ats_timer_expiry` (iommu_ats.c).
use riscv_iommu_dv_model.Prelude.{
  ℕ, true, false, not, ◌&&◌, if◌then◌else◌, ◌≡◌, refl, ◌∙◌, ap, ◌⊎◌, inl, inr, arith, Bool-cases,
  ◌==◌, count, ◌≤◌, get_bits, ◌+◌, ◌≢◌, List, [], ◌∷◌, test_bit,
}
use riscv_iommu_dv_model.Iommu.{Iommu}
use riscv_iommu_dv_model.Iommu.Caches.{ItagTracker}
use riscv_iommu_dv_model.Iommu.Platform.{Platform, AtsMsg}
use riscv_iommu_dv_model.Ats.{
  Iofence, is_free, allocate_itag, any_ats_invalidation_requests_pending, do_iofence_c, advance_cqh,
  settle_cqcsr, do_pending_iofence, queue_any_blocked_ats_inval_req, do_pending_iofence_inval_reqs,
  pending_fence, pending_destination, handle_invalidation_completion, do_ats_timer_expiry, complete,
  is_expected, do_ats_msg,
}
use riscv_iommu_dv_model.Ats.Itag.{allocate_itag_lem, exhausted, fresh}
use riscv_iommu_dv_model.Ats.Fence.{fence_commit-wait, set_cmd_to-wait}

-- Nobody waits for nothing: a fence waits only for a pending request, and if no fence waits, a request
-- is blocked only while every tag is taken.
pub record IsSettled {W : Type 0} (t : Iommu W) : Type 0 where
  pub fence_has_reason :
      t.iofence_wait_pending_inv ≡ 1 → any_ats_invalidation_requests_pending t ≡ true
  pub stall_has_reason :
      t.iofence_wait_pending_inv ≡ 0
      → t.command_queue_stall_for_itag ≡ 1
      → count is_free t.itag_tracker ≡ 0

-- What the completion `m` has to be for a request: one that waits, of the same device and, where the
-- request names a segment, of that segment.
pub record Expects (t : ItagTracker) (m : AtsMsg) : Type 0 where
  pub waits : t.busy ≢ 0
  pub same_segment : (t.dsv ≢ 1) ⊎ ((m.dsv ≡ 1) × (m.dseg ≡ t.dseg))
  pub same_device : t.rid ≡ m.rid

-- Every request that the vector `v` names, counting from the tag `k` on, expects the completion.
pub AllExpect : AtsMsg → (v k : ℕ) → List ItagTracker → Type 0
AllExpect m v k [] = Unit
AllExpect m v k (t ∷ ts) = (test_bit v k ≡ true → Expects t m) × AllExpect m v (k + 1) ts

-- Some request that it names does not.
pub data IsUnexpected (m : AtsMsg) (v : ℕ) : ℕ → List ItagTracker → Type 0 where
  first :
      (k : ℕ) (t : ItagTracker) (ts : List ItagTracker)
      → test_bit v k ≡ true
      → ¬ Expects t m
      → IsUnexpected m v k (t ∷ ts)
  later :
      (k : ℕ) (t : ItagTracker) (ts : List ItagTracker)
      → IsUnexpected m v (k + 1) ts
      → IsUnexpected m v k (t ∷ ts)

is_expected-Expects : (m : AtsMsg) (t : ItagTracker) → is_expected m t ≡ true → Expects t m
is_expected-Expects m t h = record {
  waits = ground arith;
  same_segment = ground arith;
  same_device = ground arith;
}

Expects-is_expected : (m : AtsMsg) (t : ItagTracker) → Expects t m → is_expected m t ≡ true
Expects-is_expected m t h = ground (arith, h.waits, h.same_segment, h.same_device)

not_expected : (m : AtsMsg) (t : ItagTracker) → is_expected m t ≡ false → ¬ Expects t m
not_expected m t h k = let e = Expects-is_expected m t k in cc

module _ (m : AtsMsg) (v responses : ℕ) where
  complete-IsUnexpected :
      (k : ℕ) (ts : List ItagTracker)
      → (complete m v responses k ts).0 ≡ true
      → IsUnexpected m v k ts
  unfolding complete
  complete-IsUnexpected k [] h = absurd cc
  complete-IsUnexpected k (t ∷ ts) h = elim (Bool-cases (test_bit v k)) [
    | inr n ↦ later k t ts (complete-IsUnexpected (k + 1) ts (ground arith))
    | inl y ↦ elim (Bool-cases (is_expected m t)) [
      | inr n ↦ first k t ts y (not_expected m t n)
      | inl e ↦ later k t ts (complete-IsUnexpected (k + 1) ts (simp (y, e) at h))
    ]
  ]

  complete-AllExpect :
      (k : ℕ) (ts : List ItagTracker) → (complete m v responses k ts).0 ≡ false → AllExpect m v k ts
  unfolding complete AllExpect
  complete-AllExpect k [] h = tt
  complete-AllExpect k (t ∷ ts) h = elim (Bool-cases (test_bit v k)) [
    | inr n ↦ (λ y. absurd cc, complete-AllExpect (k + 1) ts (ground arith))
    | inl y ↦ elim (Bool-cases (is_expected m t)) [
      | inr n ↦ absurd (let x : true ≡ false = simp (y, n) at h in cc)
      | inl e ↦ (λ _. is_expected-Expects m t e, complete-AllExpect (k + 1) ts (simp (y, e) at h))
    ]
  ]

module _ {W : Type 0} (P : Platform W) where
  do_iofence_c-wait :
      (s : Iommu W) (f : Iofence)
      → any_ats_invalidation_requests_pending s ≡ false
      → (do_iofence_c P s f).1.iofence_wait_pending_inv ≡ 0
  unfolding do_iofence_c
  do_iofence_c-wait s f n =
      let ready : Iommu W = record s { iofence_wait_pending_inv = 0 } in
      elim (Bool-cases (s.ats_inv_req_timeout == 1)) [
        | inl y ↦ simp (n, y) (set_cmd_to-wait P ready)
        | inr m ↦ simp (n, m) (fence_commit-wait P ready f)
      ]

  settle_cqcsr-wait :
      (s : Iommu W) → (settle_cqcsr s).iofence_wait_pending_inv ≡ s.iofence_wait_pending_inv
  unfolding settle_cqcsr
  settle_cqcsr-wait s = ground arith

  do_pending_iofence-wait :
      (s : Iommu W)
      → any_ats_invalidation_requests_pending s ≡ false
      → (do_pending_iofence P s).iofence_wait_pending_inv ≡ 0
  unfolding do_pending_iofence advance_cqh
  do_pending_iofence-wait s n =
      let r = do_iofence_c P s (pending_fence s) in
      let free = do_iofence_c-wait s (pending_fence s) n in
      elim (Bool-cases (r.0 == 0)) [
        | inl y ↦ rw y (settle_cqcsr-wait (advance_cqh r.1) ∙ free)
        | inr m ↦ rw m (settle_cqcsr-wait r.1 ∙ free)
      ]

  queue_any_blocked_ats_inval_req-IsSettled :
      (s : Iommu W)
      → s.iofence_wait_pending_inv ≡ 0
      → IsSettled (queue_any_blocked_ats_inval_req P s)
  unfolding queue_any_blocked_ats_inval_req do_ats_msg
  queue_any_blocked_ats_inval_req-IsSettled s free =
      elim (Bool-cases (s.command_queue_stall_for_itag == 1)) [
        | inr n ↦ simp n (record {
          fence_has_reason = λ e. absurd (omega arith);
          stall_has_reason = λ _ e. absurd (ground arith);
        })
        | inl y ↦ elim (allocate_itag_lem s (pending_destination s)) [
          | exhausted none_free e ↦
              simp (y, e)
                (record {
                  fence_has_reason = λ k. absurd (omega arith);
                  stall_has_reason = λ _ _. none_free;
                })
          | fresh i ts e _ ↦
              let kept : (allocate_itag s (pending_destination s)).1.iofence_wait_pending_inv ≡ 0 =
                rw e free in
              simp (y, ap (λ r. r.0) e)
                (record {
                  fence_has_reason = λ k. absurd (omega (arith, kept));
                  stall_has_reason = λ _ k. absurd (omega arith);
                })
        ]
      ]

  requeue-IsSettled :
      (t : Iommu W)
      → (t.iofence_wait_pending_inv ≡ 0)
        ⊎ ((t.iofence_wait_pending_inv ≡ 1) × (any_ats_invalidation_requests_pending t ≡ true))
      → IsSettled
          (if t.iofence_wait_pending_inv == 0 then queue_any_blocked_ats_inval_req P t else t)
  requeue-IsSettled t (inl e) = simp e (queue_any_blocked_ats_inval_req-IsSettled t e)
  requeue-IsSettled t (inr (e, y)) =
      simp e (record { fence_has_reason = λ _. y; stall_has_reason = λ k. absurd (omega arith) })

  -- After a look at what waits, the state is settled: a fence that waits has a pending request to wait
  -- for, and if no fence waits, a blocked request stays blocked only where no tag is free. The
  -- waiting flag of the fence has to be 0 or 1.
  pub do_pending_iofence_inval_reqs-IsSettled :
      (s : Iommu W) → s.iofence_wait_pending_inv ≤ 1 → IsSettled (do_pending_iofence_inval_reqs P s)
  unfolding do_pending_iofence_inval_reqs
  do_pending_iofence_inval_reqs-IsSettled s flag =
      let stuck = any_ats_invalidation_requests_pending s in
      let t = if s.iofence_wait_pending_inv == 1 && not stuck then do_pending_iofence P s else s in
      requeue-IsSettled t (elim (Bool-cases (any_ats_invalidation_requests_pending s)) [
        | inl y ↦ elim (Bool-cases (s.iofence_wait_pending_inv == 1)) [
          | inl z ↦ rw (y, z) (inr (ground arith, y))
          | inr m ↦ rw m (inl (ground arith))
        ]
        | inr n ↦ elim (Bool-cases (s.iofence_wait_pending_inv == 1)) [
          | inl z ↦ rw (n, z) (inl (do_pending_iofence-wait s n))
          | inr m ↦ rw m (inl (ground arith))
        ]
      ])

  -- The expiry of the timers of any set of requests leaves the state settled, if the waiting flag of
  -- the fence is 0 or 1 before.
  pub do_ats_timer_expiry-IsSettled :
      (s : Iommu W) (itag_vector : ℕ)
      → s.iofence_wait_pending_inv ≤ 1
      → IsSettled (do_ats_timer_expiry P s itag_vector)
  unfolding do_ats_timer_expiry
  do_ats_timer_expiry-IsSettled s v flag = do_pending_iofence_inval_reqs-IsSettled _ flag

  -- A completion message is refused, and then nothing but the trackers changes, only where its vector names
  -- a request that does not expect it: a free tag, another device, or another segment than the request's. It
  -- is accepted only where all the requests that it names expect it, and leaves the state settled: no
  -- fence waits without a pending request, and no request is blocked while a tag is free. The waiting flag
  -- of the fence has to be 0 or 1.
  pub handle_invalidation_completion-IsSettled :
      (s : Iommu W) (m : AtsMsg)
      → s.iofence_wait_pending_inv ≤ 1
      → let r = handle_invalidation_completion P s m in
        let v = get_bits 31 0 m.payload in
        ((r.0 ≡ 1)
          × (IsUnexpected m v 0 s.itag_tracker
              × (r.1 ≡ record s { itag_tracker = r.1.itag_tracker })))
        ⊎ ((r.0 ≡ 0) × (AllExpect m v 0 s.itag_tracker × IsSettled r.1))
  unfolding handle_invalidation_completion
  handle_invalidation_completion-IsSettled s m flag =
      let v = get_bits 31 0 m.payload in
      let n = get_bits 34 32 m.payload in
      let r = complete m v n 0 s.itag_tracker in
      elim (Bool-cases r.0) [
        | inl y ↦ rw y (inl (refl, (complete-IsUnexpected m v n 0 s.itag_tracker y, refl)))
        | inr x ↦ rw x (
            inr (
              refl,
              (
                complete-AllExpect m v n 0 s.itag_tracker x,
                do_pending_iofence_inval_reqs-IsSettled _ flag,
              ),
            ))
      ]
