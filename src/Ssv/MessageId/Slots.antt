-- ===== src/Ssv/MessageId/Slots.antt =====
-- What a message identifier of anchor/common/ssv_types/src/msgid.rs gives back of what it was
-- made of.
use anchor.Base.{
  ℕ, ◌≡◌, refl, ap, sym, ◌∙◌, ◌↔◌, [], ◌∷◌, ◌++◌, arith, ◌==◌, length, true, false, some, Option,
  Bool-cases, inl, inr, length-append, eq_of_==, and_true, ◌&&◌,
}
use mathlib.Core.List.{append-nil}
use anchor.Base.Result.{ok}
use anchor.Ssv.Message.{Bytes}
use anchor.Ssv.MessageId.{
  Role, committee, aggregator, proposer, sync_committee, validator_registration, voluntary_exit,
  aggregator_committee, ptc_attester, proposer_preferences, role_bytes, role_of_bytes, DutyExecutor,
  for_committee, for_validator, new_message_id, message_id_domain, message_id_role,
  message_id_duty_executor, decode_message_id, encode_message_id, zeros, drop, role_of_byte,
  is_committee_role,
}

role_of_bytes-role_bytes : (role : Role) → role_of_bytes (role_bytes role) ≡ some role
unfolding role_of_bytes role_bytes
role_of_bytes-role_bytes committee = refl
role_of_bytes-role_bytes aggregator = refl
role_of_bytes-role_bytes proposer = refl
role_of_bytes-role_bytes sync_committee = refl
role_of_bytes-role_bytes validator_registration = refl
role_of_bytes-role_bytes voluntary_exit = refl
role_of_bytes-role_bytes aggregator_committee = refl
role_of_bytes-role_bytes ptc_attester = refl
role_of_bytes-role_bytes proposer_preferences = refl

-- The arrays have their lengths, and the executor is of the kind that the role has.
abbrev pub Fits : Bytes → Role → DutyExecutor → Type 0
Fits domain role (for_committee id) =
    (length domain ≡ 4) × (length id ≡ 32) × (is_committee_role role ≡ true)
Fits domain role (for_validator key) =
    (length domain ≡ 4) × (length key ≡ 48) × (is_committee_role role ≡ false)

four_bytes : (bs : Bytes) → length bs ≡ 4 → (a b c d : ℕ) × (bs ≡ a ∷ b ∷ c ∷ d ∷ [])
four_bytes [] e = absurd (omega arith)
four_bytes (a ∷ []) e = absurd (omega arith)
four_bytes (a ∷ b ∷ []) e = absurd (omega arith)
four_bytes (a ∷ b ∷ c ∷ []) e = absurd (omega arith)
four_bytes (a ∷ b ∷ c ∷ d ∷ []) e = (a, b, c, d, refl)
four_bytes (a ∷ b ∷ c ∷ d ∷ x ∷ xs) e = absurd (omega arith)

length-role_bytes : (role : Role) → length (role_bytes role) ≡ 4
unfolding role_bytes
length-role_bytes committee = refl
length-role_bytes aggregator = refl
length-role_bytes proposer = refl
length-role_bytes sync_committee = refl
length-role_bytes validator_registration = refl
length-role_bytes voluntary_exit = refl
length-role_bytes aggregator_committee = refl
length-role_bytes ptc_attester = refl
length-role_bytes proposer_preferences = refl

-- An identifier is the domain, the role and the executor, zeros before a committee.
abbrev executor_bytes : DutyExecutor → Bytes
executor_bytes (for_committee id) = zeros 16 ++ id
executor_bytes (for_validator key) = key

new_message_id-parts :
    (domain : Bytes) (role : Role) (executor : DutyExecutor)
    → length domain ≡ 4
    → new_message_id domain role executor ≡ domain ++ role_bytes role ++ executor_bytes executor
unfolding new_message_id
new_message_id-parts domain role (for_committee id) l =
    let (a, b, c, d, e) = four_bytes domain l in
    let (x, y, z, w, r) = four_bytes (role_bytes role) (length-role_bytes role) in
    rw (e, r, append-nil id) refl
new_message_id-parts domain role (for_validator key) l =
    let (a, b, c, d, e) = four_bytes domain l in
    let (x, y, z, w, r) = four_bytes (role_bytes role) (length-role_bytes role) in
    rw (e, r, append-nil key) refl

parts-domain-role :
    (domain rest : Bytes) (role : Role)
    → length domain ≡ 4
    → (message_id_domain (domain ++ role_bytes role ++ rest) ≡ domain)
      × (message_id_role (domain ++ role_bytes role ++ rest) ≡ some role)
unfolding message_id_domain message_id_role
parts-domain-role domain rest role l =
    let (a, b, c, d, e) = four_bytes domain l in
    let (x, y, z, w, r) = four_bytes (role_bytes role) (length-role_bytes role) in
    rw (e, r) (refl, ap role_of_bytes (sym r) ∙ role_of_bytes-role_bytes role)

drop_parts :
    (domain rest : Bytes) (role : Role)
    → length domain ≡ 4
    → drop 8 (domain ++ role_bytes role ++ rest) ≡ rest
drop_parts domain rest role l =
    let (a, b, c, d, e) = four_bytes domain l in
    let (x, y, z, w, r) = four_bytes (role_bytes role) (length-role_bytes role) in rw (e, r) refl

drop_padding :
    (domain id : Bytes) (role : Role)
    → length domain ≡ 4
    → drop 24 (domain ++ role_bytes role ++ (zeros 16 ++ id)) ≡ id
drop_padding domain id role l =
    let (a, b, c, d, e) = four_bytes domain l in
    let (x, y, z, w, r) = four_bytes (role_bytes role) (length-role_bytes role) in rw (e, r) refl

read_committee :
    (deserialize : Bytes → Option Bytes) (id : Bytes) (role : Role)
    → message_id_role id ≡ some role
    → is_committee_role role ≡ true
    → message_id_duty_executor deserialize id ≡ some (for_committee (drop 24 id))
unfolding message_id_duty_executor
read_committee deserialize id role r k = rw (message_id_duty_executor, r, k) refl

parts-executor :
    (deserialize : Bytes → Option Bytes) (domain : Bytes) (role : Role) (executor : DutyExecutor)
    → Fits domain role executor
    → ((key : Bytes) → executor ≡ for_validator key → deserialize key ≡ some key)
    → message_id_duty_executor deserialize (domain ++ role_bytes role ++ executor_bytes executor)
      ≡ some executor
unfolding message_id_duty_executor
parts-executor deserialize domain role (for_committee id) (l, _, k) known =
    read_committee deserialize (domain ++ role_bytes role ++ executor_bytes (for_committee id)) role
      (parts-domain-role domain (executor_bytes (for_committee id)) role l).1 k
    ∙ ap (λ bytes. some (for_committee bytes)) (drop_padding domain id role l)
parts-executor deserialize domain role (for_validator key) (l, _, k) known =
    rw
      (
        message_id_duty_executor,
        (parts-domain-role domain key role l).1,
        k,
        drop_parts domain key role l,
        known key refl,
      )
      refl

length-executor_bytes :
    (domain : Bytes) (role : Role) (executor : DutyExecutor)
    → Fits domain role executor
    → length (executor_bytes executor) ≡ 48
length-executor_bytes domain role (for_committee id) (l, k, _) = omega (arith, k)
length-executor_bytes domain role (for_validator key) (l, k, _) = k

Fits-domain :
    (domain : Bytes) (role : Role) (executor : DutyExecutor)
    → Fits domain role executor
    → length domain ≡ 4
Fits-domain domain role (for_committee id) fits = fits.0
Fits-domain domain role (for_validator key) fits = fits.0

length-parts :
    (domain : Bytes) (role : Role) (executor : DutyExecutor)
    → Fits domain role executor
    → length (domain ++ role_bytes role ++ executor_bytes executor) ≡ 56
length-parts domain role executor fits = omega (
  arith,
  length-append (domain ++ role_bytes role) (executor_bytes executor),
  length-append domain (role_bytes role),
  length-role_bytes role,
  length-executor_bytes domain role executor fits,
  Fits-domain domain role executor fits,
)

-- For a domain of 4 bytes, and an executor of the right length and of the kind that the role has,
-- whose key, if it is one, deserializes to itself: the identifier decodes from its own bytes and
-- gives back the domain, the role and the executor.
pub new_message_id_lem :
    (deserialize : Bytes → Option Bytes) (domain : Bytes) (role : Role) (executor : DutyExecutor)
    → Fits domain role executor
    → ((key : Bytes) → executor ≡ for_validator key → deserialize key ≡ some key)
    → let id = new_message_id domain role executor in
      (decode_message_id (encode_message_id id) ≡ ok id)
      × (message_id_domain id ≡ domain)
      × (message_id_role id ≡ some role)
      × (message_id_duty_executor deserialize id ≡ some executor)
unfolding decode_message_id
new_message_id_lem deserialize domain role executor fits known =
    let l = Fits-domain domain role executor fits in
    let (at_domain, at_role) = parts-domain-role domain (executor_bytes executor) role l in
    rw (new_message_id-parts domain role executor l) (
      rw (length-parts domain role executor fits) refl,
      at_domain,
      at_role,
      parts-executor deserialize domain role executor fits known,
    )

-- The byte of a role, and the three zeros behind it.
role_byte : Role → ℕ
role_byte committee = 0
role_byte aggregator = 1
role_byte proposer = 2
role_byte sync_committee = 3
role_byte validator_registration = 4
role_byte voluntary_exit = 5
role_byte aggregator_committee = 6
role_byte ptc_attester = 7
role_byte proposer_preferences = 8

role_bytes-role_byte : (role : Role) → role_bytes role ≡ role_byte role ∷ 0 ∷ 0 ∷ 0 ∷ []
unfolding role_bytes role_byte
role_bytes-role_byte committee = refl
role_bytes-role_byte aggregator = refl
role_bytes-role_byte proposer = refl
role_bytes-role_byte sync_committee = refl
role_bytes-role_byte validator_registration = refl
role_bytes-role_byte voluntary_exit = refl
role_bytes-role_byte aggregator_committee = refl
role_bytes-role_byte ptc_attester = refl
role_bytes-role_byte proposer_preferences = refl

byte_of_some : (b : ℕ) (role : Role) → role_of_byte b ≡ some role → b ≡ role_byte role
unfolding role_byte
byte_of_some b role e = ground arith

bytes_of_some :
    (bytes : Bytes) (role : Role) → role_of_bytes bytes ≡ some role → bytes ≡ role_bytes role
unfolding role_of_bytes
bytes_of_some [] role e = cc
bytes_of_some (a ∷ []) role e = cc
bytes_of_some (a ∷ b ∷ []) role e = cc
bytes_of_some (a ∷ b ∷ c ∷ []) role e = cc
bytes_of_some (a ∷ b ∷ c ∷ d ∷ x ∷ xs) role e = cc
bytes_of_some (a ∷ b ∷ c ∷ d ∷ []) role e = elim (Bool-cases (b == 0 && (c == 0 && d == 0))) [
  | inr nonzero ↦ absurd (ground (arith, nonzero))
  | inl zeros ↦
      let at : a ≡ role_byte role = byte_of_some a role (ground (arith, zeros)) in
      let (y, z) = and_true (b == 0) (c == 0 && d == 0) zeros in
      let (u, v) = and_true (c == 0) (d == 0) z in
      rw (role_bytes-role_byte role, at, eq_of_== b 0 y, eq_of_== c 0 u, eq_of_== d 0 v) refl
]

-- Bytes are read as a role exactly if they are those that the role is written as.
role_of_bytes_iff :
    (bytes : Bytes) (role : Role) → (role_of_bytes bytes ≡ some role) ↔ (bytes ≡ role_bytes role)
role_of_bytes_iff bytes role = (bytes_of_some bytes role, λ e. rw e (role_of_bytes-role_bytes role))
