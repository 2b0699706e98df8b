-- ===== src/DeviceInfo/Names.antt =====
-- Which states `state_to_string` tells apart.
use adb_client.Base.{
  ◌≡◌, ◌≢◌, refl, sym, ap, ◌∙◌, Option, none, some, if◌then◌else◌, Bytes, codes, equal, arith,
}
use adb_client.DeviceInfo.{
  ConnectionState, any, connecting, authorizing, unauthorized, no_perm, detached, offline,
  bootloader, device, host, recovery, sideload, rescue, state_to_string,
}

-- The state that a name stands for.
abbrev pub named : Bytes → Option ConnectionState
named s =
    if equal s (codes "connecting")
    then some connecting
    else if equal s (codes "authorizing")
    then some authorizing
    else if equal s (codes "unauthorized")
    then some unauthorized
    else if equal s (codes "no permissions")
    then some no_perm
    else if equal s (codes "offline")
    then some offline
    else if equal s (codes "bootloader")
    then some bootloader
    else if equal s (codes "device")
    then some device
    else if equal s (codes "host")
    then some host
    else if equal s (codes "recovery")
    then some recovery
    else if equal s (codes "sideload")
    then some sideload
    else if equal s (codes "rescue")
    then some rescue
    else none

-- The states with a name of their own, by the two that have none.
abbrev pub HasName : ConnectionState → Type 0
HasName s = (s ≢ any) × (s ≢ detached)

abbrev own : ConnectionState → Option ConnectionState
own any = none
own detached = none
own s = some s

named-state_to_string : (s : ConnectionState) → named (state_to_string s) ≡ own s
unfolding state_to_string equal
named-state_to_string any = refl
named-state_to_string _ = refl

own-injective : (s t : ConnectionState) → HasName s → own s ≡ own t → s ≡ t
own-injective s t h e = ground arith

-- Two states with the same name are the same state, unless the first is kCsAny or kCsDetached.
state_to_string-injective :
    (s t : ConnectionState) → HasName s → state_to_string s ≡ state_to_string t → s ≡ t
state_to_string-injective s t h e =
    own-injective s t h
      (sym (named-state_to_string s) ∙ ap (λ n. named n) e ∙ named-state_to_string t)
