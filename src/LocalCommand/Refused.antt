-- ===== src/LocalCommand/Refused.antt =====
-- The device services where the server refuses the transport: a FAIL and its text, in one read.
use adb_client.Base.{
  ℕ, ◌+◌, ◌<◌, ◌≤◌, ◌≡◌, refl, ◌∙◌, append-nil, true, false, Bool, List, [], ◌∷◌, ◌++◌, arith,
  Bytes, codes, HasNoNul, ℤ, pos, negsuc, length, equal, ◌==◌,
}
use adb_client.CString.{contains, starts_with}
use adb_client.Client.{Event, connection, message}
use adb_client.Command.Exchange.{sent, started, ended}
use adb_client.Command.ReadBuffer.{received_in}
use adb_client.Command.Splits.{fail, sized, whole-AllText, length-sized}
use adb_client.Command.{Frame}
use adb_client.Fault.{Result, ok}
use adb_client.LocalCommand.Handlers.{LocalCommand}
use adb_client.LocalCommand.Lists
use adb_client.LocalCommand.Lists.{listed, list_reverse-added_all}
use adb_client.LocalCommand.Reverses.{added-long}
use adb_client.LocalCommand.Screencap.{capture_all, capture-image, screencap-image_of}
use adb_client.LocalCommand.Services.{
  respond, respond_all, respond-long, long-equal_fail, execute-respond_all,
}
use adb_client.LocalCommand.Shell
use adb_client.LocalCommand.Shell.{is_output, outputs, latest, shell-outputs}
use adb_client.LocalCommand.{
  transport_request, shell, list_packages, get_properties, screencap, list_reverse, request, sync,
  tcpip, usb, root, reverse, reverse_service, kill_reverse, kill_reverse_all, decimal,
}
use adb_client.Printf.Hex.{format_04x_digits}

-- The events of an exchange that the server refuses.
abbrev pub refusal : ℕ → Bytes → List Event → List Event
refusal size text rest =
    connection true ∷ message (received_in size (fail text)) ∷ connection false ∷ rest

fail-starts : (text : Bytes) → starts_with (fail text) (codes "OKAY") ≡ false
unfolding starts_with
fail-starts text = refl

module _ (size : ℕ) (rest : List Event) (o : LocalCommand) (serial text : Bytes) where
  -- The object after the transport request, with nothing else written.
  abbrev pub rejected : LocalCommand
  rejected = record o { adb = ended (sent (started (transport_request serial) o.adb)) }

  abbrev pub outcome :
      {V : Type 0} → LocalCommand → ℤ → V → Result (Frame LocalCommand V × List Event)
  outcome t status out = ok (record { object = t; status = status; out = out }, rest)

  -- The same, with the refusal for the output of a command.
  abbrev pub told : LocalCommand
  told = record rejected { shell_data = fail text }

  -- What each command makes of the refusal.
  abbrev pub AllRefused : Bytes → Bytes → Bytes → Bytes → ℕ → Bool → Type 0
  AllRefused command out local remote port norebind =
      let events = refusal size text rest in
      (shell events o serial command ≡ outcome told (pos 0) tt)
      × (list_packages events o serial ≡ outcome told (pos 0) (fail text))
      × (get_properties events o serial ≡ outcome told (pos 0) (fail text))
      × (screencap events o serial out ≡ outcome rejected (negsuc 0) (out ++ fail text))
      × (list_reverse events o serial out ≡ outcome rejected (pos 0) (out ++ sized text))
      × (sync events o serial ≡ outcome rejected (pos 0) tt)
      × (tcpip events o serial port ≡ outcome rejected (pos 0) tt)
      × (usb events o serial ≡ outcome rejected (pos 0) tt)
      × (root events o serial ≡ outcome rejected (pos 0) tt)
      × (reverse events o serial local remote norebind ≡ outcome rejected (pos 0) tt)
      × (kill_reverse events o serial local ≡ outcome rejected (pos 0) tt)
      × (kill_reverse_all events o serial ≡ outcome rejected (pos 0) tt)

  module _ (short : length text < 65536) (no_nul : HasNoNul text)
      (fits : length text + 12 ≤ size) where
    fail-HasNoNul : HasNoNul (fail text)
    fail-HasNoNul =
        (whole-AllText size text short no_nul fits (codes "FAIL") refl
          (refl, (refl, (refl, (refl, tt))))).0

    longer : (length (fail text) == 4) ≡ false
    longer = ground (arith, length-sized text short)

    refusal-is_output : is_output (fail text) ≡ true
    refusal-is_output =
        rw (long-equal_fail (fail text) (omega (arith, length-sized text short)))
          (rw (fail-starts text))

    shell_told :
        {V : Type 0} (command : Bytes) (out : V)
        → Shell.told size rest o serial (fail text ∷ []) command out ≡ outcome told (pos 0) out
    unfolding respond_all latest
    shell_told command out =
        let b = sent (started (transport_request serial) o.adb) in
        let long : 4 < length (fail text) = omega (arith, length-sized text short) in
        rw (respond-long (codes "shell:" ++ command) (fail text) b long) (rw refusal-is_output)

    shells_refused :
        (command : Bytes)
        → (shell (refusal size text rest) o serial command ≡ outcome told (pos 0) tt)
          × (list_packages (refusal size text rest) o serial ≡ outcome told (pos 0) (fail text))
          × (get_properties (refusal size text rest) o serial ≡ outcome told (pos 0) (fail text))
    unfolding latest
    shells_refused command =
        let all =
          shell-outputs size rest o serial (fail text ∷ []) command
            (fail-HasNoNul, omega (arith, length-sized text short), tt) in
        let found = latest o.shell_data (outputs (fail text ∷ [])) in
        let packages = all.1 ∙ shell_told (codes "pm list packages") found in
        let properties = all.2 ∙ shell_told (codes "getprop") found in
        (
          all.0 ∙ shell_told command tt,
          rw refusal-is_output at packages,
          rw refusal-is_output at properties,
        )

    screencap_refused :
        (out : Bytes)
        → screencap (refusal size text rest) o serial out
          ≡ outcome rejected (negsuc 0) (out ++ fail text)
    unfolding capture_all
    screencap_refused out =
        screencap-image_of size rest o serial out (fail text ∷ [])
        ∙ rw
            (capture-image (fail text) (negsuc 0, sent (started (transport_request serial) o.adb))
              longer)
            (rw longer (rw (append-nil (fail text))))

    list_reverse_refused :
        (out : Bytes)
        → contains (fail text) (codes "OKAY") ≡ false
        → list_reverse (refusal size text rest) o serial out
          ≡ outcome rejected (pos 0) (out ++ sized text)
    unfolding respond_all listed
    list_reverse_refused out absent =
        let long : 4 < length (fail text) = omega (arith, length-sized text short) in
        list_reverse-added_all size rest o serial out (fail text ∷ []) (omega arith)
          (fail-HasNoNul, omega (arith, length-sized text short), tt)
        ∙ rw
            (respond-long Lists.service (fail text)
              (sent (started (transport_request serial) o.adb)) long)
            (rw (added-long (fail text) long, append-nil (listed (fail text))) (rw absent))

    request_refused :
        (service : Bytes)
        → request (refusal size text rest) o serial service ≡ outcome rejected (pos 0) tt
    unfolding request respond_all respond equal
    request_refused service =
        execute-respond_all size rest o serial service (negsuc 0) (fail text ∷ [])
        ∙ rw (format_04x_digits (length text) short)

    -- Where the server refuses the transport with a FAIL and its text in one read, no command
    -- writes its service. `shell` returns 0 and has the refusal for its output, which
    -- `list_packages` and `get_properties` return, also with status 0; `screencap` returns -1 and
    -- appends the refusal to the caller's string; `list_reverse` returns 0 and appends the length
    -- and the text of the refusal; and the seven commands that look at the status only return 0. No
    -- OKAY stands in the refusal. The text has fewer than 65536 bytes, none of them NUL, and the
    -- buffer has room for the refusal.
    pub commands-refused :
        (command out local remote : Bytes) (port : ℕ) (norebind : Bool)
        → contains (fail text) (codes "OKAY") ≡ false
        → AllRefused command out local remote port norebind
    unfolding sync tcpip usb root reverse kill_reverse kill_reverse_all
    commands-refused command out local remote port norebind absent = (
      (shells_refused command).0,
      (shells_refused command).1,
      (shells_refused command).2,
      screencap_refused out,
      list_reverse_refused out absent,
      request_refused (codes "sync:"),
      request_refused (codes "tcpip:" ++ decimal 10 port []),
      request_refused (codes "usb:"),
      request_refused (codes "root:"),
      request_refused (reverse_service local remote norebind),
      request_refused (codes "reverse:killforward:" ++ local),
      request_refused (codes "reverse:killforward-all"),
    )
