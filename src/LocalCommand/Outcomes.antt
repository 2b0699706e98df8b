-- ===== src/LocalCommand/Outcomes.antt =====
-- What the seven commands with a service and a status make of the replies of the device.
use adb_client.Base.{
  ℕ, ◌<◌, ◌≡◌, ◌∙◌, Bool, List, [], ◌∷◌, ◌++◌, Bytes, codes, ℤ, pos, negsuc, length, equal,
}
use adb_client.Client.{Event}
use adb_client.Command.Exchange.{sent, started, ended}
use adb_client.Command.Splits.{fail}
use adb_client.Command.{AdbCommand, Frame}
use adb_client.Fault.{Result, ok}
use adb_client.LocalCommand.Handlers.{LocalCommand}
use adb_client.LocalCommand.Services.{
  asked, respond_all, respond, local_frame, service_reads, execute-respond_all,
}
use adb_client.LocalCommand.{
  transport_request, sync, tcpip, usb, root, reverse, reverse_service, kill_reverse,
  kill_reverse_all, decimal, request,
}
use adb_client.Printf.Hex.{format_04x_digits}

module _ (size : ℕ) (rest : List Event) (o : LocalCommand) (serial : Bytes) where
  -- The base part once the transport request is sent.
  abbrev pub transported : AdbCommand
  transported = sent (started (transport_request serial) o.adb)

  abbrev pub done : ℤ → AdbCommand → Result (Frame LocalCommand (Unit {0}) × List Event)
  done status b = ok (local_frame o (status, ended b), rest)

  -- What a command with a given service makes of an OKAY for the transport and, for the service,
  -- OKAY, FAIL before its text, and FAIL with its text.
  abbrev pub ServiceOutcomes :
      (List Event → Result (Frame LocalCommand (Unit {0}) × List Event)) → Bytes → Bytes → Type 0
  ServiceOutcomes command service text =
      let reads = service_reads size rest o serial service in
      (command (reads (codes "OKAY" ∷ codes "OKAY" ∷ []))
        ≡ done (pos 0) (asked service (asked service transported)))
      × (command (reads (codes "OKAY" ∷ codes "FAIL" ∷ []))
          ≡ done (negsuc 0) (asked service transported))
      × (command (reads (codes "OKAY" ∷ fail text ∷ [])) ≡ done (pos 0) (asked service transported))

  request-ServiceOutcomes :
      (service text : Bytes)
      → length text < 65536
      → ServiceOutcomes (λ events. request events o serial service) service text
  unfolding request respond_all respond equal
  request-ServiceOutcomes service text short =
      let replied = execute-respond_all size rest o serial service (negsuc 0) in
      (
        replied (codes "OKAY" ∷ codes "OKAY" ∷ []),
        replied (codes "OKAY" ∷ codes "FAIL" ∷ []),
        replied (codes "OKAY" ∷ fail text ∷ []) ∙ rw (format_04x_digits (length text) short),
      )

  -- Each of the seven commands writes its service behind the OKAY of the transport. An OKAY for the
  -- service, alone in the last read, makes it write the service again, and return 0. A FAIL alone
  -- in the last read makes it return -1, and a FAIL that arrives with its text, of fewer than 65536
  -- bytes, makes it return 0.
  pub services-ServiceOutcomes :
      (local remote text : Bytes) (port : ℕ) (norebind : Bool)
      → length text < 65536
      → ServiceOutcomes (λ events. sync events o serial) (codes "sync:") text
        × ServiceOutcomes
            (λ events. tcpip events o serial port)
            (codes "tcpip:" ++ decimal 10 port [])
            text
        × ServiceOutcomes (λ events. usb events o serial) (codes "usb:") text
        × ServiceOutcomes (λ events. root events o serial) (codes "root:") text
        × ServiceOutcomes
            (λ events. reverse events o serial local remote norebind)
            (reverse_service local remote norebind)
            text
        × ServiceOutcomes
            (λ events. kill_reverse events o serial local)
            (codes "reverse:killforward:" ++ local)
            text
        × ServiceOutcomes
            (λ events. kill_reverse_all events o serial)
            (codes "reverse:killforward-all")
            text
  unfolding sync tcpip usb root reverse kill_reverse kill_reverse_all
  services-ServiceOutcomes local remote text port norebind short =
      let replied = λ (service : Bytes). request-ServiceOutcomes service text short in
      (
        replied (codes "sync:"),
        replied (codes "tcpip:" ++ decimal 10 port []),
        replied (codes "usb:"),
        replied (codes "root:"),
        replied (reverse_service local remote norebind),
        replied (codes "reverse:killforward:" ++ local),
        replied (codes "reverse:killforward-all"),
      )
