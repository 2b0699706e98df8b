-- ===== src/Tests/Locals.antt =====
-- One run of the theorems on the services of a device.
use adb_client.LocalCommand.Lists.{added_all, list_reverse-added_all}
use adb_client.Command.Exchange.{exchange, ended, sent, started}
use adb_client.LocalCommand.Handlers.{
  list_reverse_message, screencap_message, LocalCommand, local_class,
}
use adb_client.Command.ReadBuffer.{received_in}
use adb_client.Base.{
  map, ◌≡◌, refl, List, [], ◌∷◌, ◌++◌, arith, Bytes, HasNoNul, length, ◌<◌, codes, pos, negsuc,
  true, false, equal,
}
use adb_client.CString.{contains, starts_with}
use adb_client.Client.{Event}
use adb_client.Command.{AdbCommand, Frame}
use adb_client.Fault.{Result, ok}
use adb_client.LocalCommand.Outcomes.{ServiceOutcomes, services-ServiceOutcomes}
use adb_client.Command.Splits.{fail}
use adb_client.Printf.Hex.{format_04x, hex_digits, hex_digit}
use adb_client.LocalCommand.Refused.{AllRefused, commands-refused}
use adb_client.LocalCommand.Images.{image_reads, captured, joined, screencap-joined}
use adb_client.LocalCommand.Services.{AllFit, respond_all}
use adb_client.LocalCommand.Shell.{outputs_in, told, outputs, latest, shell-outputs}
use adb_client.LocalCommand.Screencap
use adb_client.LocalCommand.Screencap.{capture, capture_all, image_of, screencap-image_of}
use adb_client.LocalCommand.{
  transport_request, decimal, reverse_service, shell, list_packages, get_properties, screencap,
  sync, tcpip, usb, root, reverse, kill_reverse, kill_reverse_all, list_reverse,
}
use adb_client.Tests.{new_local, has_no_nul-HasNoNul}

abbrev Answers : (List Event → Result (Frame LocalCommand (Unit {0}) × List Event)) → Bytes → Type 0
Answers command service = ServiceOutcomes 64 [] new_local (codes "s") command service (codes "no")

services-ServiceOutcomes_example :
    Answers (λ events. sync events new_local (codes "s")) (codes "sync:")
    × Answers
        (λ events. tcpip events new_local (codes "s") 5555)
        (codes "tcpip:" ++ decimal 10 5555 [])
    × Answers (λ events. usb events new_local (codes "s")) (codes "usb:")
    × Answers (λ events. root events new_local (codes "s")) (codes "root:")
    × Answers
        (λ events. reverse events new_local (codes "s") (codes "a") (codes "b") true)
        (reverse_service (codes "a") (codes "b") true)
    × Answers
        (λ events. kill_reverse events new_local (codes "s") (codes "a"))
        (codes "reverse:killforward:a")
    × Answers
        (λ events. kill_reverse_all events new_local (codes "s"))
        (codes "reverse:killforward-all")
services-ServiceOutcomes_example =
    services-ServiceOutcomes 64 [] new_local (codes "s") (codes "a") (codes "b") (codes "no") 5555
      true (omega arith)

-- The OKAY of the transport, an output in two reads, and OKAY again.
abbrev replies : List Bytes
replies = codes "OKAY" ∷ codes "first line" ∷ codes "ls" ∷ codes "OKAY" ∷ []

okay_fits : HasNoNul (codes "OKAY") × (length (codes "OKAY") < 64)
okay_fits = (has_no_nul-HasNoNul (codes "OKAY") refl, omega arith)

replies-AllFit : AllFit 64 replies
replies-AllFit = (
  okay_fits.0,
  okay_fits.1,
  (
    has_no_nul-HasNoNul (codes "first line") refl,
    omega arith,
    (has_no_nul-HasNoNul (codes "ls") refl, omega arith, (okay_fits.0, okay_fits.1, tt)),
  ),
)

shell-outputs_example :
    (shell
        (outputs_in 64 [] new_local (codes "s") replies (codes "ls"))
        new_local
        (codes "s")
        (codes "ls")
      ≡ told 64 [] new_local (codes "s") replies (codes "ls") tt)
    × (list_packages
          (outputs_in 64 [] new_local (codes "s") replies (codes "pm list packages"))
          new_local
          (codes "s")
        ≡ told 64 [] new_local
            (codes "s")
            replies
            (codes "pm list packages")
            (latest (codes "old") (outputs replies)))
    × (get_properties
          (outputs_in 64 [] new_local (codes "s") replies (codes "getprop"))
          new_local
          (codes "s")
        ≡ told 64 [] new_local
            (codes "s")
            replies
            (codes "getprop")
            (latest (codes "old") (outputs replies)))
shell-outputs_example =
    shell-outputs 64 [] new_local (codes "s") replies (codes "ls") replies-AllFit

screencap-joined_example :
    screencap
      (image_reads 64 [] new_local (codes "s") [] (codes "PNG" ∷ codes "bytes" ∷ []))
      new_local
      (codes "s")
      []
    ≡ captured 64 [] new_local
        (codes "s")
        []
        (pos 0)
        ([] ++ joined (codes "PNG" ∷ codes "bytes" ∷ []))
screencap-joined_example =
    screencap-joined 64 [] new_local (codes "s") [] (codes "PNG" ∷ codes "bytes" ∷ [])
      (refl, (refl, tt))

abbrev image_replies : List Bytes
image_replies = codes "OKAY" ∷ codes "PNG" ∷ codes "tail" ∷ codes "end" ∷ codes "FAIL" ∷ []

screencap-image_of_example :
    screencap
      (exchange local_class
        (screencap_message Screencap.service)
        (map (received_in 64) image_replies)
        [])
      new_local
      (codes "s")
      (codes "old")
    ≡ (let r =
          capture_all image_replies
            (negsuc 0, sent (started (transport_request (codes "s")) (new_local.adb))) in
        ok (
          record {
            object = record new_local { adb = ended r.1 };
            status = r.0;
            out = codes "old" ++ image_of image_replies;
          },
          [],
        ))
screencap-image_of_example =
    screencap-image_of 64 [] new_local (codes "s") (codes "old") image_replies

-- The read `tail` is lost, and the status is -1, which the FAIL leaves.
image_replies_lem :
    (image_of image_replies ≡ codes "PNGend")
    × ((b : AdbCommand) → (capture_all image_replies (negsuc 0, b)).0 ≡ negsuc 0)
unfolding capture_all capture equal
image_replies_lem = (refl, λ b. refl)

no_okay : contains (fail (codes "no")) (codes "OKAY") ≡ false
unfolding contains starts_with format_04x hex_digits hex_digit
no_okay = refl

commands-refused_example :
    AllRefused 64 [] new_local
      (codes "s")
      (codes "no")
      (codes "ls")
      (codes "x")
      (codes "tcp:1")
      (codes "tcp:2")
      5555
      true
commands-refused_example =
    commands-refused 64 [] new_local (codes "s") (codes "no") (omega arith)
      (has_no_nul-HasNoNul (codes "no") refl) (omega arith) (codes "ls") (codes "x") (codes "tcp:1")
      (codes "tcp:2") 5555 true no_okay

abbrev list_chunks : List Bytes
list_chunks = codes "OKAY" ∷ codes "OKAY0010tcp:1 " ∷ codes "tcp:2\n" ∷ []

list_chunks-AllFit : AllFit 64 list_chunks
list_chunks-AllFit = (
  has_no_nul-HasNoNul (codes "OKAY") refl,
  omega arith,
  (
    has_no_nul-HasNoNul (codes "OKAY0010tcp:1 ") refl,
    omega arith,
    (has_no_nul-HasNoNul (codes "tcp:2\n") refl, omega arith, tt),
  ),
)

list_reverse-added_all_example :
    list_reverse
      (exchange local_class
        (list_reverse_message (codes "reverse:list-forward"))
        (map (received_in 64) list_chunks)
        [])
      new_local
      (codes "s")
      (codes "x")
    ≡ (let r =
          respond_all
            (codes "reverse:list-forward")
            list_chunks
            (negsuc 0, sent (started (transport_request (codes "s")) new_local.adb)) in
        ok (
          record {
            object = record new_local { adb = ended r.1 };
            status = r.0;
            out = codes "x" ++ added_all list_chunks;
          },
          [],
        ))
list_reverse-added_all_example =
    list_reverse-added_all 64 [] new_local (codes "s") (codes "x") list_chunks (omega arith)
      list_chunks-AllFit
