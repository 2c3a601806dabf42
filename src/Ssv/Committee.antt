-- ===== src/Ssv/Committee.antt =====
-- Committee sizes, fault bound and quorum: anchor/common/ssv_types/src/lib.rs.
pub mod Quorum
use anchor.Base.{ℕ, ◌+◌, ◌-◌, ◌*◌, ◌/◌, ◌%◌, Bool, ◌&&◌, ◌==◌, leb}

-- `MAX_SIGNATURES`
abbrev pub max_signatures : ℕ
max_signatures = 13

-- `saturating_sub` is the subtraction of ℕ.
unfoldable pub get_f : ℕ → ℕ
get_f members = (members - 1) / 3

unfoldable pub quorum_size : ℕ → ℕ
unfolding get_f
quorum_size committee_size = get_f committee_size * 2 + 1

unfoldable pub is_valid_committee_size : ℕ → Bool
unfolding get_f
is_valid_committee_size committee_size =
    let f = get_f committee_size in
    (committee_size - 1) % 3 == 0 && (leb 1 f && leb f (get_f max_signatures))
