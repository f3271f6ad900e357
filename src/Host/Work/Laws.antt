-- ===== src/Host/Work/Laws.antt =====
-- host/src/work.rs: what a dispatch does to the work, for any host.
use rust_jsi.Base.{◌≡◌, ◌≢◌, ◌⊎◌, inl, inr, refl, Option, none, some, Result, ok, err, arith}
use rust_jsi.Host.Work.{
  Host, ScheduledWork, WorkDispatchError, attachment_mismatch, entry, host_contract_violation,
  dispatch, into_work,
}

Entered-cases : {B E : Type 0} (r : Result B E) → ((b : B) × (r ≡ ok b)) ⊎ ((e : E) × (r ≡ err e))
Entered-cases (ok b) = inl (b, refl)
Entered-cases (err e) = inr (e, refl)

Left-cases : {E : Type 0} (o : Option E) → (o ≡ none) ⊎ ((e : E) × (o ≡ some e))
Left-cases none = inl refl
Left-cases (some e) = inr (e, refl)

module _ (A : Host) {T R : Type 0} (operation : A.Backend → T → A.Backend × R) where
  -- For any host: work of another attachment comes back with the active attachment, and the host is
  -- not entered; a rejected entry gives the work back with the host's error; and an entry runs the
  -- operation once, on the lent backend and the work's payload, and gives its result, unless the
  -- host fails after it, which is reported as a violation of its contract.
  pub dispatch_lem :
      (work : ScheduledWork T) (host : A.H)
      → let (k, r) = dispatch A operation work host in
        let active = A.attachment_id host in
        let (h, lent) = A.enter host in
        ((work.attachment ≢ active) × (k ≡ host) × (r ≡ err (attachment_mismatch work active)))
        ⊎ ((e : A.Error) × (work.attachment ≡ active)
            × (lent ≡ err e)
            × (k ≡ h)
            × (r ≡ err (entry work e)))
        ⊎ ((b : A.Backend) × (work.attachment ≡ active)
            × (lent ≡ ok b)
            × (k ≡ (A.leave h (operation b work.payload).0).0)
            × ((((A.leave h (operation b work.payload).0).1 ≡ none)
                  × (r ≡ ok (operation b work.payload).1))
                ⊎ (((A.leave h (operation b work.payload).0).1 ≢ none)
                    × (r ≡ err (host_contract_violation active none)))))
  unfolding dispatch
  dispatch_lem work host = elim (Entered-cases (A.enter host).1) [
    | inl (b, lent) ↦ elim (Left-cases (A.leave (A.enter host).0 (operation b work.payload).0).1) [
      | inl done ↦ ground (arith, lent, done)
      | inr (e, failed) ↦ ground (arith, lent, failed)
    ]
    | inr (e, rejected) ↦ ground (arith, rejected)
  ]

  -- With a host that keeps its contract, a dispatch that fails gives the work back as it was.
  pub dispatch_keeps_work :
      ((h : A.H) (b : A.Backend) → (A.leave h b).1 ≡ none)
      → (work : ScheduledWork T) (host : A.H)
      → let r = (dispatch A operation work host).1 in
        ((x : R) × (r ≡ ok x))
        ⊎ ((e : WorkDispatchError T A.Error) × (r ≡ err e) × (into_work e ≡ some work))
  dispatch_keeps_work keeps work host = elim (dispatch_lem work host) [
    | inl (_, _, r) ↦ inr (_, r, refl)
    | inr (inl (e, _, _, _, r)) ↦ inr (_, r, refl)
    | inr (inr (b, _, _, _, inl (_, r))) ↦ inl (_, r)
    | inr (inr (b, _, _, _, inr (failed, _))) ↦ absurd (failed (keeps _ _))
  ]
