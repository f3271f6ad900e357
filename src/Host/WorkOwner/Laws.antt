-- ===== src/Host/WorkOwner/Laws.antt =====
-- host/src/work_owner.rs: the owner's mailbox, and the mailboxes that it has replaced.
use rust_jsi.Base.{
  ℕ, ◌≡◌, ◌≢◌, ◌⊎◌, ◌∙◌, sym, subst, ap, inl, inr, refl, [], ◌∷◌, ◌++◌, length, Option, none, some,
  Result, err, returned, Method, arith,
}
use rust_jsi.Runtime.Queue.{ArrayQueue}
use rust_jsi.Runtime.Closable.State.{state}
use rust_jsi.Runtime.Closable.Laws.Final.{
  IsFinal, IsSound, Keeps, enqueue-final, state-closed, IsFinal-Keeps, IsSound-Keeps,
}
use rust_jsi.Host.Identity.{AttachmentId}
use rust_jsi.Host.Registration
use rust_jsi.Host.Registration.{DrainRegistration, DrainRegistrationState}
use rust_jsi.Host.Work.{ScheduledWork}
use rust_jsi.Host.WorkMailbox
use rust_jsi.Host.WorkMailbox.{ScheduledWorkMailbox, Posting, ScheduledWorkEnqueueError}
use rust_jsi.Host.WorkMailbox.Laws as Inner
use rust_jsi.Host.WorkOwner.{
  Heap, new, on_mailbox, begin_close, post_pending, send, send_and_post, post_when, replace,
  try_begin_terminal_drain,
}
use rust_jsi.Host.WorkOwner.Replacing.{Replied, replaced_current, owner_replace_lem, replace_stuck}
use rust_jsi.Base.Slots.{
  get_elem?, set, get-set, get-append, get-append-last, set-same, get-set-found, some-injective,
  none-some,
}
use rust_jsi.Host.WorkOwner.Calls.{
  Action, silent, act, Reach, start, later, Respects, silent-Respects, on, sends, sends_and_posts,
  closes, retries, begins, replaces,
}

Found : {B : Type 0} → (o : Option B) → (o ≡ none) ⊎ ((b : B) × (o ≡ some b))
Found none = inl refl
Found (some b) = inr (b, refl)

module _ {T W E : Type 0} (A : ArrayQueue (ScheduledWork T))
    (poster : AttachmentId → W → W × Result (Unit {0}) E) where
  pub record Inv (s : Heap A W) : Type 0 where
    pub current :
        (b : ScheduledWorkMailbox A) × (get_elem? s.mailboxes s.owner.mailbox ≡ some b)
        × (b.attachment ≡ s.owner.registration.current)
    pub sound :
        (i : ℕ) (b : ScheduledWorkMailbox A)
        → get_elem? s.mailboxes i ≡ some b
        → IsSound A b.mailbox
    pub retired :
        (i : ℕ) (b : ScheduledWorkMailbox A)
        → get_elem? s.mailboxes i ≡ some b
        → (i ≡ s.owner.mailbox) ⊎ IsFinal A b.mailbox

  set-Inv :
      (self : Heap A W) (i : ℕ) (b c : ScheduledWorkMailbox A) (w : W)
      → get_elem? self.mailboxes i ≡ some b
      → c.attachment ≡ b.attachment
      → Keeps A b.mailbox c.mailbox
      → Inv self
      → Inv (record self { mailboxes = set self.mailboxes i c; world = w })
  set-Inv self i b c w found same keeps v = record {
    current =
        let (d, here, own) = v.current in
        elim (get-set-found self.mailboxes i self.owner.mailbox c d here) [
          | inl (e, there) ↦
              let is_b : d ≡ b =
                some-injective (sym here ∙ ap (get_elem? self.mailboxes) e ∙ found) in
              (c, there, same ∙ ap (λ m. m.attachment) (sym is_b) ∙ own)
          | inr there ↦ (d, there, own)
        ];
    sound = λ j d h. elim (get-set self.mailboxes i j c d h) [
      | inl (_, e) ↦
          subst (λ m. IsSound A m.mailbox) (sym e) (IsSound-Keeps A _ _ keeps (v.sound i b found))
      | inr there ↦ v.sound j d there
    ];
    retired = λ j d h. elim (get-set self.mailboxes i j c d h) [
      | inl (at_i, e) ↦ elim (v.retired i b found) [
        | inl own ↦ inl (at_i ∙ own)
        | inr final ↦
            inr (subst (λ m. IsFinal A m.mailbox) (sym e) (IsFinal-Keeps A _ _ keeps final))
      ]
      | inr there ↦ v.retired j d there
    ];
  }

  on_mailbox-Inv :
      {B : Type 0} (i : ℕ) (f : Method (Posting A W) B) (self : Heap A W)
      → Respects A poster f
      → Inv self
      → Inv (on_mailbox A i f self).0
  unfolding on_mailbox
  on_mailbox-Inv i f self respects v = elim (Found (get_elem? self.mailboxes i)) [
    | inl e ↦ rw (e) v
    | inr (b, e) ↦
        let (same, keeps) = respects (record { mailbox = b; world = self.world }) in
        rw (e) (set-Inv self i b _ _ e same keeps v)
  ]

  append-Inv :
      (self : Heap A W) (a : AttachmentId) (n : ℕ) (b : ScheduledWorkMailbox A)
      (r : DrainRegistration)
      → get_elem? self.mailboxes self.owner.mailbox ≡ some b
      → IsFinal A b.mailbox
      → r.current ≡ a
      → Inv self
      → Inv (record self {
        owner = record { registration = r; mailbox = length self.mailboxes };
        mailboxes = self.mailboxes ++ WorkMailbox.new A a n ∷ [];
      })
  append-Inv self a n b r found final named v = record {
    current =
        (WorkMailbox.new A a n, get-append-last self.mailboxes (WorkMailbox.new A a n), sym named);
    sound = λ j d h. elim (get-append self.mailboxes j _ d h) [
      | inl (_, e) ↦ subst (λ m. IsSound A m.mailbox) (sym e) (inl refl)
      | inr there ↦ v.sound j d there
    ];
    retired = λ j d h. elim (get-append self.mailboxes j _ d h) [
      | inl (last, _) ↦ inl last
      | inr there ↦ elim (v.retired j d there) [
        | inr gone ↦ inr gone
        | inl own ↦
            let is_b : d ≡ b =
              some-injective (sym there ∙ ap (get_elem? self.mailboxes) own ∙ found) in
            inr (subst (λ m. IsFinal A m.mailbox) (sym is_b) final)
      ]
    ];
  }

  replace-Inv : (self : Heap A W) (a : AttachmentId) (n : ℕ) → Inv self → Inv (replace A a n self).0
  replace-Inv self a n v =
      let (b, found, own) = v.current in
      elim (Replied (state A b.mailbox).1) [
        | inl stuck ↦ subst Inv (sym (replace_stuck A self b a n found stuck)) v
        | inr (s, reads) ↦ elim (owner_replace_lem A self b s a n found reads) [
          | inl (closed, taken, _, k) ↦ elim (state-closed A b.mailbox (v.sound _ b found)) [
            | inl (_, final) ↦
                subst Inv (sym k)
                  (append-Inv self a n b _ found final (replaced_current a _ taken) v)
            | inr other ↦ absurd (other (reads ∙ ap returned closed))
          ]
          | inr (inl (_, _, _, k, _)) ↦ subst Inv (sym k) v
          | inr (inr (_, k, _)) ↦ subst Inv (sym k) v
        ]
      ]

  post_when-Inv :
      (t : DrainRegistrationState) (i : ℕ) (self : Heap A W)
      → Inv self
      → Inv (post_when A poster t i self).0
  post_when-Inv DrainRegistrationState.active i self v =
      on_mailbox-Inv i _ self (silent-Respects A poster Inner.post_pending) v
  post_when-Inv DrainRegistrationState.closing i self v = v

  act-Inv : (x : Action T) (self : Heap A W) → Inv self → Inv (act A poster x self)
  unfolding send send_and_post begin_close post_pending try_begin_terminal_drain
      Registration.begin_close
  act-Inv (on i x) self v = on_mailbox-Inv i (silent A poster x) self (silent-Respects A poster x) v
  act-Inv (sends s x) self v =
      on_mailbox-Inv s.mailbox _ self (silent-Respects A poster (Inner.enqueue x)) v
  act-Inv (sends_and_posts s x) self v =
      on_mailbox-Inv s.mailbox _ self (silent-Respects A poster (Inner.enqueue_and_post x)) v
  act-Inv closes self v =
      on_mailbox-Inv self.owner.mailbox _ _ (silent-Respects A poster Inner.begin_close)
        (record { current = v.current; sound = v.sound; retired = v.retired })
  act-Inv retries self v = post_when-Inv self.owner.registration.state self.owner.mailbox self v
  act-Inv begins self v =
      on_mailbox-Inv self.owner.mailbox _ self (silent-Respects A poster Inner.begin_terminal) v
  act-Inv (replaces a n) self v = replace-Inv self a n v

  new-IsSound :
      (a : AttachmentId) (n i : ℕ) (b : ScheduledWorkMailbox A)
      → get_elem? (WorkMailbox.new A a n ∷ []) i ≡ some b
      → IsSound A b.mailbox
  new-IsSound a n i b h = elim (get-append [] i (WorkMailbox.new A a n) b h) [
    | inl (_, e) ↦ subst (λ m. IsSound A m.mailbox) (sym e) (inl refl)
    | inr none_there ↦ absurd (none-some none_there)
  ]

  new_retired :
      (a : AttachmentId) (n i : ℕ) (b : ScheduledWorkMailbox A)
      → get_elem? (WorkMailbox.new A a n ∷ []) i ≡ some b
      → (i ≡ 0) ⊎ IsFinal A b.mailbox
  new_retired a n i b h = elim (get-append [] i (WorkMailbox.new A a n) b h) [
    | inl (last, _) ↦ inl last
    | inr none_there ↦ absurd (none-some none_there)
  ]

  new-Inv : (a : AttachmentId) (n : ℕ) (w : W) → Inv (new A a n w)
  new-Inv a n w = record {
    current = (WorkMailbox.new A a n, refl, refl);
    sound = new-IsSound a n;
    retired = new_retired a n;
  }

  pub Reach-Inv : {a : AttachmentId} {n : ℕ} {w : W} {s : Heap A W} → Reach A poster a n w s → Inv s
  Reach-Inv {a} {n} {w} start = new-Inv a n w
  Reach-Inv (later {s} x r) = act-Inv x s (Reach-Inv r)

  refuses-final :
      (b : ScheduledWorkMailbox A) (x : T)
      → IsFinal A b.mailbox
      → WorkMailbox.enqueue A x b ≡ (
        b,
        returned (
            err (
              ScheduledWorkEnqueueError.closed
                (record { attachment = b.attachment; payload = x }))),
      )
  unfolding WorkMailbox.enqueue
  refuses-final b x f =
      ground
        (arith, enqueue-final A b.mailbox (record { attachment = b.attachment; payload = x }) f)

  -- After any calls on the owner, on senders and on mailboxes, a sender of a mailbox that the owner
  -- has replaced is refused: its payload comes back as `closed`, bound to the old attachment, and
  -- nothing changes, in the replacement's mailbox in particular.
  pub stale_sender_refused :
      {a : AttachmentId} {n : ℕ} {w : W} {s : Heap A W} (i : ℕ) (b : ScheduledWorkMailbox A) (x : T)
      → Reach A poster a n w s
      → get_elem? s.mailboxes i ≡ some b
      → i ≢ s.owner.mailbox
      → send A (record { mailbox = i }) x s ≡ (
        s,
        returned (
            err (
              ScheduledWorkEnqueueError.closed
                (record { attachment = b.attachment; payload = x }))),
      )
  unfolding send on_mailbox
  stale_sender_refused {s = s} i b x r found other = elim ((Reach-Inv r).retired i b found) [
    | inl own ↦ absurd (other own)
    | inr final ↦ rw (found, refuses-final b x final, set-same s.mailboxes i b found) refl
  ]

  -- After any calls, the owner's mailbox exists and is of the attachment that is registered.
  pub owner_mailbox_registered :
      {a : AttachmentId} {n : ℕ} {w : W} {s : Heap A W}
      → Reach A poster a n w s
      → (b : ScheduledWorkMailbox A) × (get_elem? s.mailboxes s.owner.mailbox ≡ some b)
        × (b.attachment ≡ s.owner.registration.current)
  owner_mailbox_registered r = (Reach-Inv r).current
