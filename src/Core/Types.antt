-- ===== src/Core/Types.antt =====
-- src/optisocks5/core/types.py: the enums, whose members are their numbers, and the parsed reply.
use optisocks.Prelude.{ℕ, Bool, Option, none, some, Text, ◌==◌, if◌then◌else◌}

abbrev pub connect : ℕ
connect = 0x01

abbrev pub bind : ℕ
bind = 0x02

abbrev pub udp_associate : ℕ
udp_associate = 0x03

abbrev pub no_auth : ℕ
no_auth = 0x00

abbrev pub gssapi : ℕ
gssapi = 0x01

abbrev pub userpass : ℕ
userpass = 0x02

abbrev pub no_acceptable : ℕ
no_acceptable = 0xff

-- class Rep(IntEnum)
pub data Rep : Type 0 where
  succeeded general_failure not_allowed net_unreachable host_unreachable conn_refused : Rep
  ttl_expired cmd_not_supported atyp_not_supported : Rep

abbrev pub value : Rep → ℕ
value succeeded = 0x00
value general_failure = 0x01
value not_allowed = 0x02
value net_unreachable = 0x03
value host_unreachable = 0x04
value conn_refused = 0x05
value ttl_expired = 0x06
value cmd_not_supported = 0x07
value atyp_not_supported = 0x08

-- `Rep(rep)`, which raises a ValueError for a number that is no member.
unfoldable pub rep_of : ℕ → Option Rep
rep_of n =
    if n == value succeeded
    then some succeeded
    else if n == value general_failure
    then some general_failure
    else if n == value not_allowed
    then some not_allowed
    else if n == value net_unreachable
    then some net_unreachable
    else if n == value host_unreachable
    then some host_unreachable
    else if n == value conn_refused
    then some conn_refused
    else if n == value ttl_expired
    then some ttl_expired
    else if n == value cmd_not_supported
    then some cmd_not_supported
    else if n == value atyp_not_supported
    then some atyp_not_supported
    else none

-- `rep_name`: a member's name, or UNKNOWN with the number.
pub data RepName : Type 0 where
  member : Rep → RepName
  unknown : ℕ → RepName

unfoldable pub rep_name : ℕ → RepName
unfolding rep_of
rep_name rep = elim (rep_of rep) [ some r ↦ member r | none ↦ unknown rep ]

pub record Reply : Type 0 where
  pub rep : ℕ
  pub host : Text
  pub port : ℕ

unfoldable pub is_ok : Reply → Bool
is_ok r = r.rep == value succeeded
