-- ===== src/SerdeHelpers.antt =====
-- src/serde_helpers.rs: the values that the derived parsers take for fields that are missing.
use polysock.Base.{ℕ, Option}
use mathlib.Core.Option.{get_or}
use polysock.Net.{IpAddr}

abbrev pub default_ip_local : IpAddr
default_ip_local = "0.0.0.0"

abbrev pub default_port : ℕ
default_port = 0

-- `#[serde(default = ..)]` on an address of this host, and on a port.
abbrev pub ip_local_or_default : Option IpAddr → IpAddr
ip_local_or_default ip = get_or ip default_ip_local

abbrev pub port_or_default : Option ℕ → ℕ
port_or_default port = get_or port default_port
