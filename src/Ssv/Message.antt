-- ===== src/Ssv/Message.antt =====
-- SSV messages and their validation: anchor/common/ssv_types/src/message.rs. A `VariableList` is
-- a list whose bound is checked where the source builds it or pushes to it.
pub mod Aggregate
pub mod Sorted
pub mod Valid
use anchor.Base.{
  ℕ, ◌+◌, ◌*◌, ◌≡◌, Bool, true, false, ◌||◌, not, List, [], ◌∷◌, ◌==◌, leb, ltb, if◌then◌else◌,
  length, is_empty,
}
use anchor.Base.Result.{Result, ok, err, ◌>>=◌, ◌>>◌, guard}
use anchor.Base.Sets.{contains, insert}
use anchor.Ssv.Committee.{max_signatures}

-- Each entry is a byte.
abbrev pub Bytes : Type 0
Bytes = List ℕ

pub data MsgType : Type 0 where
  ssv_consensus_msg_type ssv_partial_signature_msg_type : MsgType

pub data SsvMessageError : Type 0 where
  empty_data : SsvMessageError
  ssv_data_too_big : ℕ → ℕ → SsvMessageError

pub record SsvMessage : Type 0 where
  pub msg_type : MsgType
  pub msg_id : Bytes
  pub msg_data : Bytes

-- `try_to_variable_list`, at the bound of the list's type.
unfoldable pub try_to_variable_list {ℓ} :
    {A E : Type ℓ} → ℕ → List A → (ℕ → ℕ → E) → Result E (List A)
try_to_variable_list max xs error_fn =
    if leb (length xs) max then ok xs else err (error_fn (length xs) max)

-- `RoundChangeJustificationLength` and `PrepareJustificationLength` of consensus.rs
abbrev pub round_change_justification_length : ℕ
round_change_justification_length = 51852

abbrev pub prepare_justification_length : ℕ
prepare_justification_length = 3700

-- `MAX_CONSENSUS_MSG_SIZE`; 4 is `ssz::BYTES_PER_LENGTH_OFFSET`.
abbrev pub max_consensus_msg_size : ℕ
max_consensus_msg_size =
    8
    + 8
    + 8
    + (56 + 4)
    + 32
    + 8
    + (max_signatures * (round_change_justification_length + 4) + 4)
    + (max_signatures * (prepare_justification_length + 4) + 4)

-- `MAX_PARTIAL_SIGNATURE_MSGS_SIZE`
abbrev pub max_partial_signature_msgs_size : ℕ
max_partial_signature_msgs_size = 8 + 8 + 5048 * (96 + 32 + 8 + 8) + 4

-- `SSVMessageDataLen`
abbrev pub ssv_message_data_len : ℕ
ssv_message_data_len = 726 * 1000 + 932

-- `SSVMessageFullDataLen`
abbrev pub ssv_message_full_data_len : ℕ
ssv_message_full_data_len = 8 * 1000000 + (388 * 1000 + 836)

-- `RSA_SIGNATURE_SIZE`
abbrev pub rsa_signature_size : ℕ
rsa_signature_size = 256

abbrev pub max_size : MsgType → ℕ
max_size ssv_consensus_msg_type = max_consensus_msg_size
max_size ssv_partial_signature_msg_type = max_partial_signature_msgs_size

-- `SSVMessage::validate`
unfoldable pub validate_ssv_message : SsvMessage → Result SsvMessageError (Unit {0})
validate_ssv_message m =
    if is_empty m.msg_data
    then err empty_data
    else if ltb (max_size m.msg_type) (length m.msg_data)
    then err (ssv_data_too_big (length m.msg_data) (max_size m.msg_type))
    else ok tt

-- `SSVMessage::new`
unfoldable pub new_ssv_message : MsgType → Bytes → Bytes → Result SsvMessageError SsvMessage
unfolding try_to_variable_list validate_ssv_message
new_ssv_message msg_type msg_id msg_data = do
  bounded ← try_to_variable_list ssv_message_data_len msg_data ssv_data_too_big
  let ssv_message : SsvMessage = record { msg_type = msg_type; msg_id = msg_id; msg_data = bounded }
  validate_ssv_message ssv_message
  ok ssv_message

pub data SignedSsvMessageError : Type 0 where
  too_many_signatures : ℕ → ℕ → SignedSsvMessageError
  wrong_rsa_signature_size : ℕ → ℕ → ℕ → SignedSsvMessageError
  too_many_operator_ids : ℕ → ℕ → SignedSsvMessageError
  full_data_too_long : ℕ → ℕ → SignedSsvMessageError
  no_signers signers_and_signatures_with_different_length zero_signer : SignedSsvMessageError
  no_signatures duplicated_signer : SignedSsvMessageError
  ssv_message_error : SsvMessageError → SignedSsvMessageError

pub record SignedSsvMessage : Type 0 where
  pub signatures : List Bytes
  pub operator_ids : List ℕ
  pub ssv_message : SsvMessage
  pub full_data : Bytes

-- `From<SSVMessageError>`, as `?` applies it.
abbrev pub lift_error {ℓ} : {A : Type ℓ} → Result SsvMessageError A → Result SignedSsvMessageError A
lift_error (ok a) = ok a
lift_error (err e) = err (ssv_message_error e)
lift_error Result.panic = Result.panic

-- The loop over the signatures; `i` is the counter of `enumerate`.
unfoldable pub check_signature_sizes : ℕ → List Bytes → Result SignedSsvMessageError (Unit {0})
check_signature_sizes i [] = ok tt
check_signature_sizes i (sig ∷ sigs) =
    let rest = check_signature_sizes (i + 1) sigs in
    if length sig == rsa_signature_size
    then rest
    else err (wrong_rsa_signature_size i (length sig) rsa_signature_size)

-- The loop that collects the signers in a set.
unfoldable pub has_duplicate : List ℕ → List ℕ → Bool
has_duplicate seen_ids [] = false
has_duplicate seen_ids (id ∷ ids) = contains seen_ids id || has_duplicate (insert id seen_ids) ids

-- `SignedSSVMessage::validate`
unfoldable pub validate : SignedSsvMessage → Result SignedSsvMessageError (Unit {0})
validate m = do
  check_signature_sizes 0 m.signatures
  guard (not (is_empty m.operator_ids)) no_signers
  guard (not (is_empty m.signatures)) no_signatures
  guard (not (contains m.operator_ids 0)) zero_signer
  guard (not (has_duplicate [] m.operator_ids)) duplicated_signer
  guard (length m.operator_ids == length m.signatures) signers_and_signatures_with_different_length
  lift_error (validate_ssv_message m.ssv_message)

-- `SignedSSVMessage::new`; the signatures come as arrays of 256 bytes.
unfoldable pub new_signed :
    List Bytes → List ℕ → SsvMessage → Bytes → Result SignedSsvMessageError SignedSsvMessage
new_signed signatures operator_ids ssv_message full_data = do
  sigs ← try_to_variable_list max_signatures signatures too_many_signatures
  ids ← try_to_variable_list max_signatures operator_ids too_many_operator_ids
  bytes ← try_to_variable_list ssv_message_full_data_len full_data full_data_too_long
  let m : SignedSsvMessage = record {
    signatures = sigs;
    operator_ids = ids;
    ssv_message = ssv_message;
    full_data = bytes;
  }
  validate m
  ok m

-- `set_full_data`
unfoldable pub set_full_data :
    SignedSsvMessage → Bytes → Result SignedSsvMessageError SignedSsvMessage
unfolding try_to_variable_list
set_full_data m bytes = do
  bounded ← try_to_variable_list ssv_message_full_data_len bytes full_data_too_long
  ok (record m { full_data = bounded })

abbrev pub without_full_data : SignedSsvMessage → SignedSsvMessage
without_full_data m = record m { full_data = [] }
