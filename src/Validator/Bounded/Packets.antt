-- ===== src/Validator/Bounded/Packets.antt =====
-- A packet of partial signatures that is recorded or refused keeps the bounds of the state of
-- duties (anchor/message_validator/src/duty_state.rs).
use mathlib.Core.Path.{subst}
use anchor.Base.{ℕ, ◌<◌, ◌≡◌, refl, sym, ◌∙◌, inl, inr, some, arith, length, Option-cases}
use anchor.Base.Result.{Result, ok, err, panic}
use anchor.Ssv.PartialSig.{PartialSignatureKind, PartialSignatureMessages}
use anchor.Validator.Failure.{ValidationFailure}
use anchor.Validator.Counts.{
  MessageCounts, no_messages, validate_partial_signature_limits, record_partial_signature,
}
use anchor.Validator.SignerState.{SignerState, new_signer_state, spend_roots}
use anchor.Validator.DutyState.{
  OperatorState, DutyState, operator_state, set_operator, get_signer_state, set_signer_state,
  write_signer_state, open_partial, update_for_partial_signature,
}
use anchor.Validator.DutyState.Update.{
  Written-All, set_signer_state-Written, write_signer_state-Written, get_signer_state-slot,
}
use anchor.Validator.Consensus.{Outcome}
use anchor.Validator.Partial.{check_kind_count}
use anchor.Validator.Bounded.{
  Bounded, WellFormed, new_signer_state-Bounded, set_operator-WellFormed,
}
use anchor.Validator.Bounded.Consensus.{Small}
use anchor.Validator.Bounded.Roots.{spend_roots-Spent, record_partial_signature-Small}

abbrev pub PartialFits : MessageCounts → PartialSignatureKind → Type 0
PartialFits c kind = validate_partial_signature_limits c kind ≡ ok tt

-- A ring whose entries are bounded, and the entry that a partial signature goes on with.
record Opened (o : OperatorState) (places slot : ℕ) (kind : PartialSignatureKind)
    (opened : OperatorState × SignerState) : Type 0 where
  pub size : length opened.0.state ≡ places
  pub entries : (other : ℕ) (s : SignerState) → get_signer_state opened.0 other ≡ some s → Bounded s
  pub current : Bounded opened.1
  pub own : opened.1.slot ≡ slot
  pub fits : PartialFits opened.1.message_counts kind

fresh-Fits : (kind : PartialSignatureKind) → PartialFits no_messages kind
unfolding validate_partial_signature_limits
fresh-Fits kind = ground arith

module _ (o : OperatorState) (slot : ℕ) (kind : PartialSignatureKind) (p : 0 < length o.state)
    (entries : (other : ℕ) (s : SignerState) → get_signer_state o other ≡ some s → Bounded s)
    (room : (s : SignerState)
      → get_signer_state o slot ≡ some s
      → PartialFits s.message_counts kind) where
  open_partial-Opened : Opened o (length o.state) slot kind (open_partial o slot)
  unfolding open_partial
  open_partial-Opened = elim (Option-cases (get_signer_state o slot)) [
    | inl missing ↦
        let fresh = new_signer_state slot 1 in
        let written = set_signer_state-Written o slot fresh p refl in
        rw (open_partial, missing)
          (record {
            size = written.places;
            entries =
                Written-All o (set_signer_state o slot fresh) slot fresh Bounded written
                  (new_signer_state-Bounded slot 1) entries;
            current = new_signer_state-Bounded slot 1;
            own = refl;
            fits = fresh-Fits kind;
          })
    | inr (s, found) ↦
        rw (open_partial, found)
          (record {
            size = refl;
            entries = entries;
            current = entries slot s found;
            own = get_signer_state-slot o slot s found;
            fits = room s found;
          })
  ]

-- The entry with the partial signature counted.
abbrev pub counted : SignerState → PartialSignatureKind → SignerState
counted s kind = record s { message_counts = record_partial_signature s.message_counts kind }

counted-Bounded :
    (s : SignerState) (kind : PartialSignatureKind)
    → Bounded s
    → PartialFits s.message_counts kind
    → Bounded (counted s kind)
unfolding Small
counted-Bounded s kind b f =
    let (pre, proposed, prepared, committed, changed, post) =
      record_partial_signature-Small s.message_counts kind f
        (b.pre, b.proposed, b.prepared, b.committed, b.changed, b.post) in
    record {
      pre = pre;
      proposed = proposed;
      prepared = prepared;
      committed = committed;
      changed = changed;
      post = post;
      preferred = b.preferred;
      authorised = b.authorised;
    }

module _ (d : DutyState) (p : PartialSignatureMessages) (signer : ℕ) (w : WellFormed d) where
  -- The ring of the signer, with the packet recorded or refused, goes back into the state.
  record_packet-WellFormed :
      (opened : OperatorState) (s : SignerState) (spent : Result ValidationFailure SignerState)
      → Opened (operator_state d signer) d.stored_slot_count p.slot p.kind (opened, s)
      → spend_roots s p ≡ spent
      → WellFormed
          (elim spent as (λ _. Outcome Unit) [
            | panic ↦ (panic, set_operator d signer opened)
            | err e ↦ (err e, set_operator d signer opened)
            | ok spent ↦ (
              ok tt,
              set_operator d signer (write_signer_state opened p.slot (counted spent p.kind)),
            )
          ]).1
  record_packet-WellFormed opened s panic o e =
      set_operator-WellFormed d signer opened w o.size o.entries
  record_packet-WellFormed opened s (err x) o e =
      set_operator-WellFormed d signer opened w o.size o.entries
  record_packet-WellFormed opened s (ok spent) o e =
      let x = spend_roots-Spent s spent p o.current e in
      let now =
        counted-Bounded spent p.kind x.bounded
          (subst (λ c. PartialFits c p.kind) (sym x.counts) o.fits) in
      let places : 0 < length opened.state = rw o.size w.places in
      let written =
        write_signer_state-Written opened p.slot (counted spent p.kind) places (x.slot ∙ o.own) in
      set_operator-WellFormed d signer (write_signer_state opened p.slot (counted spent p.kind)) w
        (written.places ∙ o.size)
        (Written-All opened (write_signer_state opened p.slot (counted spent p.kind)) p.slot
          (counted spent p.kind) Bounded written now o.entries)

  pub update_for_partial_signature-WellFormed :
      ((s : SignerState)
        → get_signer_state (operator_state d signer) p.slot ≡ some s
        → PartialFits s.message_counts p.kind)
      → WellFormed (update_for_partial_signature d p signer).1
  unfolding update_for_partial_signature
  update_for_partial_signature-WellFormed room =
      let o = operator_state d signer in
      let opened = open_partial o p.slot in
      record_packet-WellFormed opened.0 opened.1 (spend_roots opened.1 p)
        (subst (λ n. Opened o n p.slot p.kind opened) (w.rings signer)
          (open_partial-Opened o p.slot p.kind (rw (w.rings signer) w.places) (w.entries signer)
            room))
        refl

-- What passed the test of the counts has room for the packet.
pub check_kind_count-room :
    (p : PartialSignatureMessages) (o : OperatorState)
    → check_kind_count p o ≡ ok tt
    → (s : SignerState) → get_signer_state o p.slot ≡ some s
    → PartialFits s.message_counts p.kind
unfolding check_kind_count
check_kind_count-room p o h s found = rw (check_kind_count, found) at h
