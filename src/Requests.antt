-- ===== src/Requests.antt =====
-- The texts of the requests that carry arguments, src/host_serial_command.cpp and
-- src/local_command.cpp, as a server takes them apart again.
use adb_client.Base.{
  ℕ, ◌^◌, ◌<◌, ◌≡◌, refl, ap, ◌∙◌, Bool, true, false, [], ◌∷◌, ◌++◌, Option, none, some, negsuc,
  List, arith, Bytes, codes, ◌==◌, if◌then◌else◌, drop,
}
use adb_client.CString.{starts_with}
use adb_client.Client.{Event}
use adb_client.Command.Handlers.{read_status}
use adb_client.Command.{execute}
use adb_client.HostSerialCommand.{HostSerialCommand, serial_class, forward_request, forward}
use adb_client.LocalCommand.Handlers.{LocalCommand}
use adb_client.LocalCommand.Decimal.{digits-decimal}
use adb_client.LocalCommand.{reverse_service, decimal, request, reverse, tcpip}
use adb_client.Number.{digits}
use adb_client.Utils.Cut.{before, behind, before-append, behind-append}
use adb_client.Utils.Split.{count}
use mathlib.Core.Option

-- What follows a prefix.
abbrev pub strip : Bytes → Bytes → Option Bytes
strip [] s = some s
strip (p ∷ ps) [] = none
strip (p ∷ ps) (c ∷ s) = if c == p then strip ps s else none

-- What a server reads of `[norebind:]local;remote`.
pub record Rule : Type 0 where
  pub norebind : Bool
  pub local : Bytes
  pub remote : Bytes

abbrev pub rule : Bool → Bytes → Rule
rule norebind s = record { norebind = norebind; local = before b';' s; remote = behind b';' s }

abbrev pub read_rule : Bytes → Rule
read_rule s = if starts_with s (codes "norebind:") then rule true (drop 9 s) else rule false s

strip-append : (p s : Bytes) → strip p (p ++ s) ≡ some s
strip-append [] s = refl
strip-append (c ∷ p) s = ground (arith, strip-append p s)

starts_with-append :
    (s t l : Bytes)
    → count b';' l ≡ 0
    → starts_with s l ≡ false
    → starts_with (s ++ (b';' ∷ t)) l ≡ false
unfolding starts_with
starts_with-append s t [] n h = cc
starts_with-append [] t (c ∷ l) n h = ground arith
starts_with-append (a ∷ s) t (c ∷ l) n h = ground (arith, starts_with-append s t l)

read_rule_lem :
    (norebind : Bool) (local remote : Bytes)
    → count b';' local ≡ 0
    → starts_with local (codes "norebind:") ≡ false
    → read_rule ((if norebind then codes "norebind:" else []) ++ (local ++ (b';' ∷ remote)))
      ≡ record { norebind = norebind; local = local; remote = remote }
unfolding starts_with
read_rule_lem true local remote n h =
    rw (before-append b';' local remote n, behind-append b';' local remote n)
read_rule_lem false local remote n h =
    rw (starts_with-append local remote (codes "norebind:") refl h)
      (rw (before-append b';' local remote n, behind-append b';' local remote n))

abbrev tail : Bytes → Bytes → Bool → Bytes
tail local remote norebind =
    (if norebind then codes "norebind:" else []) ++ (local ++ (b';' ∷ remote))

reverse_service-tail :
    (local remote : Bytes) (norebind : Bool)
    → reverse_service local remote norebind ≡ codes "reverse:forward:" ++ tail local remote norebind
unfolding reverse_service
reverse_service-tail local remote true = refl
reverse_service-tail local remote false = refl

forward_request-tail :
    (serial local remote : Bytes) (norebind : Bool)
    → forward_request serial local remote norebind
      ≡ codes "host-serial:"
        ++ (serial ++ (b':' ∷ (codes "forward:" ++ tail local remote norebind)))
unfolding forward_request
forward_request-tail serial local remote true = refl
forward_request-tail serial local remote false = refl

-- What a server reads of `forward:rule`, behind a serial.
abbrev rule_of : Bytes → Bytes → Option (Bytes × Rule)
rule_of serial t = Option.map (λ (u : Bytes). (serial, read_rule u)) (strip (codes "forward:") t)

-- What a server reads of `host-serial:serial:forward:rule`: the serial up to the next colon, and
-- the rule.
abbrev pub read_forward : Bytes → Option (Bytes × Rule)
read_forward s = elim (strip (codes "host-serial:") s) [
  | none ↦ none
  | some t ↦ rule_of (before b':' t) (behind b':' t)
]

-- What a device reads of `reverse:forward:rule`.
abbrev pub read_reverse : Bytes → Option Rule
read_reverse s = Option.map read_rule (strip (codes "reverse:forward:") s)

-- What a device reads of `tcpip:port`, the port in decimal digits.
abbrev pub read_port : Bytes → Option (Option ℕ)
read_port s = Option.map (digits 10) (strip (codes "tcpip:") s)

read_forward_lem :
    (serial local remote : Bytes) (norebind : Bool)
    → count b':' serial ≡ 0
    → count b';' local ≡ 0
    → starts_with local (codes "norebind:") ≡ false
    → read_forward (forward_request serial local remote norebind)
      ≡ some (serial, record { norebind = norebind; local = local; remote = remote })
read_forward_lem serial local remote norebind colons free other =
    let rest = codes "forward:" ++ tail local remote norebind in
    let given = read_rule_lem norebind local remote free other in
    rw (forward_request-tail serial local remote norebind) (
      ap (λ (s : Bytes). rule_of s (behind b':' (serial ++ (b':' ∷ rest))))
        (before-append b':' serial rest colons)
      ∙ ap (rule_of serial) (behind-append b':' serial rest colons)
      ∙ ap (λ (r : Rule). some (serial, r)) given)

read_reverse_lem :
    (local remote : Bytes) (norebind : Bool)
    → count b';' local ≡ 0
    → starts_with local (codes "norebind:") ≡ false
    → read_reverse (reverse_service local remote norebind)
      ≡ some (record { norebind = norebind; local = local; remote = remote })
read_reverse_lem local remote norebind free other =
    rw (reverse_service-tail local remote norebind)
      (rw (read_rule_lem norebind local remote free other))

-- Whatever the events are, `forward`, `reverse` and `tcpip` make the exchange of one text. From
-- that of `forward` the server reads the serial and the two addresses and the flag that the caller
-- gave; from the service of `reverse` the device reads the addresses and the flag, and from that of
-- `tcpip` the port. The serial holds no colon, the local address holds no semicolon and does not
-- begin with norebind:, and the port is below 2 ^ 32.
pub requests_read_back :
    (serial local remote : Bytes) (norebind : Bool) (port : ℕ)
    → count b':' serial ≡ 0
    → count b';' local ≡ 0
    → starts_with local (codes "norebind:") ≡ false
    → port < 2 ^ 32
    → let given : Rule = record { norebind = norebind; local = local; remote = remote } in
      ((text : Bytes) × ((events : List Event) (o : HostSerialCommand)
          → forward events o serial local remote norebind
            ≡ execute serial_class (read_status serial_class) text (negsuc 0) events o tt)
        × (read_forward text ≡ some (serial, given)))
      × ((service : Bytes) × ((events : List Event) (o : LocalCommand)
            → reverse events o serial local remote norebind ≡ request events o serial service)
          × (read_reverse service ≡ some given))
      × ((service : Bytes) × ((events : List Event) (o : LocalCommand)
            → tcpip events o serial port ≡ request events o serial service)
          × (read_port service ≡ some (some port)))
unfolding forward reverse tcpip
requests_read_back serial local remote norebind port colons free other fits = (
  (
    forward_request serial local remote norebind,
    λ events o. refl,
    read_forward_lem serial local remote norebind colons free other,
  ),
  (
    reverse_service local remote norebind,
    λ events o. refl,
    read_reverse_lem local remote norebind free other,
  ),
  (codes "tcpip:" ++ decimal 10 port [], λ events o. refl, ap some (digits-decimal port fits)),
)
