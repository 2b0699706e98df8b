-- ===== src/LocalCommand/Talk.antt =====
-- What the commands of `LocalCommand` write, whatever the callbacks are.
use adb_client.Base.{
  ℕ, refl, Bool, not, List, [], ◌∷◌, ◌++◌, Bytes, codes, pos, negsuc, length, inl, inr, ◌==◌,
}
use adb_client.CString.{bytes_at, strcmp_eq, strncmp_eq}
use adb_client.Client.{Buffer, Call, write, Event}
use adb_client.Command.Talk.{
  IfOk, returned, IfOk-bind, IfOk-any, IfOk-if, IfOk-ok_if, Talks, Talks-write, KeepsTalk,
  execute-Talks,
}
use adb_client.Command.Exchange.{started}
use adb_client.Command.{AdbCommand, Frame, clear}
use adb_client.Fault.{Result}
use adb_client.LocalCommand.Handlers.{
  LocalCommand, local_class, respond_message, shell_message, shell_data_of, screencap_message,
  screencap_tag, list_reverse_message, reverse_list_of,
}
use adb_client.LocalCommand.{
  transport_request, decimal, reverse_service, shell, list_packages, get_properties, logcat,
  screencap, request, sync, tcpip, usb, root, reverse, list_reverse, kill_reverse, kill_reverse_all,
}
use adb_client.Printf.Hex.{format_04x}
use adb_client.Protocol.Frame.{frame_lem}
use adb_client.Protocol.{frame, respond_transport_command}

module _ (transport service : Bytes) where
  abbrev Keeps : List Call → AdbCommand → Type 0
  Keeps = Talks transport (service ∷ [])

  -- the service is written once more
  asked-Talks :
      (before : List Call) (b : AdbCommand)
      → Keeps before b
      → IfOk
          (λ str. Keeps before (record b { calls = b.calls ++ (write str ∷ []) }))
          (frame service)
  asked-Talks before b t = rw (frame_lem service) (
      returned _
        (Talks-write (write (format_04x (length service) ++ service) ∷ []) (inr (inl refl), tt) t))

  -- the calls of a base part after a message
  respond-Talks :
      (before : List Call) (buf : Buffer) (b : AdbCommand)
      → Keeps before b
      → IfOk
          (λ r. Keeps before (record b { calls = r.1 }))
          (respond_transport_command buf service b.calls)
  unfolding respond_transport_command
  respond-Talks before buf b t =
      IfOk-if (buf.size == 4)
        (IfOk-bind _ (IfOk-any (strncmp_eq buf.memory (codes "OKAY"))) (λ okay u.
          IfOk-if okay (IfOk-bind _ (asked-Talks before b t) (λ str p. returned _ p)) (
            IfOk-bind _ (IfOk-any (strncmp_eq buf.memory (codes "FAIL")))
              (λ fail u'. IfOk-ok_if fail (negsuc 0, b.calls) (pos 0, b.calls) t t))))
        (returned _ t)

  respond_message-Keeps : KeepsTalk local_class (respond_message service) transport (service ∷ [])
  unfolding respond_message
  respond_message-Keeps before buf f t =
      IfOk-bind _ (respond-Talks before buf f.object.adb t)
        (λ r p. IfOk-bind _ (IfOk-any (clear buf)) (λ c u. returned _ p))

  shell_message-Keeps : KeepsTalk local_class (shell_message service) transport (service ∷ [])
  unfolding shell_message
  shell_message-Keeps before buf f t = IfOk-bind _ (respond-Talks before buf f.object.adb t) (λ r p.
      IfOk-bind _ (IfOk-any (shell_data_of r.0 buf.memory f.object.shell_data))
        (λ s u. IfOk-bind _ (IfOk-any (clear buf)) (λ c u'. returned _ p)))

  list_reverse_message-Keeps :
      KeepsTalk local_class (list_reverse_message service) transport (service ∷ [])
  unfolding list_reverse_message
  list_reverse_message-Keeps before buf f t =
      IfOk-bind _ (respond-Talks before buf f.object.adb t) (λ r p.
        IfOk-bind _ (IfOk-any (reverse_list_of r.0 buf.memory f.out))
          (λ s u. IfOk-bind _ (IfOk-any (clear buf)) (λ c u'. returned _ p)))

  screencap_tag-Talks :
      (before : List Call) (memory : Bytes) (f : Frame LocalCommand Bytes)
      → Keeps before f.object.adb
      → IfOk (λ g. Keeps before g.object.adb) (screencap_tag service memory f)
  unfolding screencap_tag
  screencap_tag-Talks before memory f t =
      IfOk-bind _ (IfOk-any (strcmp_eq memory (codes "OKAY"))) (λ okay u.
        IfOk-if okay (IfOk-bind _ (asked-Talks before f.object.adb t) (λ str p. returned _ p)) (
          IfOk-bind _ (IfOk-any (strcmp_eq memory (codes "FAIL")))
            (λ fail u'. IfOk-ok_if (not fail) (record f { status = negsuc 0 }) f t t)))

  screencap_message-Keeps :
      KeepsTalk local_class (screencap_message service) transport (service ∷ [])
  unfolding screencap_message
  screencap_message-Keeps before buf f t =
      IfOk-bind _
        (IfOk-if (buf.size == 4) (screencap_tag-Talks before buf.memory f t)
          (IfOk-bind _ (IfOk-any (bytes_at buf.size buf.memory)) (λ payload u. returned _ t)))
        (λ g p. IfOk-bind _ (IfOk-any (clear buf)) (λ c u. returned _ p))

-- What is known of the outcome of a command on an object, by its service.
abbrev pub Outcome :
    LocalCommand
    → Bytes
    → {V : Type 0} → Bytes
    → Result (Frame LocalCommand V × List Event)
    → Type 0
Outcome o serial service r =
    let request = transport_request serial in
    IfOk (λ x. Talks request (service ∷ []) (started request o.adb).calls x.0.object.adb) r

module _ (events : List Event) (o : LocalCommand) (serial : Bytes) where
  request-Talks : (service : Bytes) → Outcome o serial service (request events o serial service)
  unfolding request
  request-Talks service =
      execute-Talks local_class (respond_message service) (transport_request serial) (service ∷ [])
        (respond_message-Keeps (transport_request serial) service) (negsuc 0) events o tt

  shell-Talks :
      (command : Bytes)
      → Outcome o serial (codes "shell:" ++ command) (shell events o serial command)
  unfolding shell
  shell-Talks command =
      let service = codes "shell:" ++ command in
      execute-Talks local_class (shell_message service) (transport_request serial) (service ∷ [])
        (shell_message-Keeps (transport_request serial) service) (pos 0) events o tt

  screencap-Talks :
      (out : Bytes)
      → Outcome o serial (codes "shell:/system/bin/screencap -p") (screencap events o serial out)
  unfolding screencap
  screencap-Talks out =
      let service = codes "shell:/system/bin/screencap -p" in
      execute-Talks local_class (screencap_message service) (transport_request serial)
        (service ∷ []) (screencap_message-Keeps (transport_request serial) service) (negsuc 0)
        events o out

  list_reverse-Talks :
      (out : Bytes)
      → Outcome o serial (codes "reverse:list-forward") (list_reverse events o serial out)
  unfolding list_reverse
  list_reverse-Talks out =
      let service = codes "reverse:list-forward" in
      execute-Talks local_class (list_reverse_message service) (transport_request serial)
        (service ∷ []) (list_reverse_message-Keeps (transport_request serial) service) (negsuc 0)
        events o out

  -- Every command writes nothing but its request for the transport and its service.
  abbrev pub AllTalk : Bytes → Bytes → Bytes → Bytes → ℕ → Bool → Type 0
  AllTalk command out local remote port norebind =
      Outcome o serial (codes "shell:" ++ command) (shell events o serial command)
      × Outcome o serial (codes "shell:pm list packages") (list_packages events o serial)
      × Outcome o serial (codes "shell:getprop") (get_properties events o serial)
      × Outcome o serial (codes "shell:logcat") (logcat events o serial)
      × Outcome o serial (codes "shell:/system/bin/screencap -p") (screencap events o serial out)
      × Outcome o serial (codes "reverse:list-forward") (list_reverse events o serial out)
      × Outcome o serial (codes "sync:") (sync events o serial)
      × Outcome o serial (codes "tcpip:" ++ decimal 10 port []) (tcpip events o serial port)
      × Outcome o serial (codes "usb:") (usb events o serial)
      × Outcome o serial (codes "root:") (root events o serial)
      × Outcome o serial (reverse_service local remote norebind)
          (reverse events o serial local remote norebind)
      × Outcome o serial (codes "reverse:killforward:" ++ local)
          (kill_reverse events o serial local)
      × Outcome o serial (codes "reverse:killforward-all") (kill_reverse_all events o serial)

  pub commands-AllTalk :
      (command out local remote : Bytes) (port : ℕ) (norebind : Bool)
      → AllTalk command out local remote port norebind
  unfolding list_packages get_properties logcat sync tcpip usb root reverse kill_reverse
      kill_reverse_all
  commands-AllTalk command out local remote port norebind = (
    shell-Talks command,
    IfOk-bind _ (shell-Talks (codes "pm list packages")) (λ r p. returned _ p),
    IfOk-bind _ (shell-Talks (codes "getprop")) (λ r p. returned _ p),
    shell-Talks (codes "logcat"),
    screencap-Talks out,
    list_reverse-Talks out,
    request-Talks (codes "sync:"),
    request-Talks (codes "tcpip:" ++ decimal 10 port []),
    request-Talks (codes "usb:"),
    request-Talks (codes "root:"),
    request-Talks (reverse_service local remote norebind),
    request-Talks (codes "reverse:killforward:" ++ local),
    request-Talks (codes "reverse:killforward-all"),
  )
