-- ===== src/HostCommand/Talk.antt =====
-- What the commands of `HostCommand` write, whatever the callbacks are.
use adb_client.Base.{
  not, ◌&&◌, List, [], ◌∷◌, ◌++◌, Bytes, codes, equal, pos, negsuc, is_minus_one, ℤ, if◌then◌else◌,
}
use adb_client.Client.{Call, Event}
use adb_client.Command.Exchange.{started}
use adb_client.Command.Handlers.{read_into, read_status}
use adb_client.Command.Talk.Replies.{read_into-Keeps, read_status-Keeps}
use adb_client.Command.Talk.{
  IfOk, returned, IfOk-bind, IfOk-any, Talks, Talks-error, Talks-ended, KeepsTalk, FrameTalks,
  deliver-Talks, begin-Talks, execute-Talks,
}
use adb_client.Command.{Frame, clear, weak_up}
use adb_client.Fault.{Result, ok}
use adb_client.HostCommand.{
  HostCommand, host_class, version_message, devices_with_path_message, track_devices_message,
  get_version, get_devices, get_devices_with_path, kill, connect, disconnect, track_devices,
  deliver_all,
}
use adb_client.Number.{stoi_hex}
use adb_client.Protocol.{read_protocol_string}

module _ (request : Bytes) where
  version_message-Keeps : KeepsTalk host_class version_message request []
  unfolding version_message
  version_message-Keeps before buf f t =
      IfOk-bind _ (IfOk-any (read_protocol_string buf [] f.object.adb.error)) (λ r u.
        IfOk-bind _
          (IfOk-any (
            if not (is_minus_one r.status) && not (equal r.result [])
            then stoi_hex r.result
            else ok f.out))
          (λ version u'.
            IfOk-bind _ (IfOk-any (clear buf)) (λ c u''. returned _ (Talks-error r.error t))))

  devices_with_path_message-Keeps : KeepsTalk host_class devices_with_path_message request []
  unfolding devices_with_path_message
  devices_with_path_message-Keeps before buf f t =
      IfOk-bind _ (IfOk-any (read_protocol_string buf f.out f.object.adb.error))
        (λ r u. IfOk-bind _ (IfOk-any (clear buf)) (λ c u'. returned _ (Talks-error r.error t)))

  track_devices_message-Keeps : KeepsTalk host_class track_devices_message request []
  unfolding track_devices_message weak_up
  track_devices_message-Keeps before buf f t =
      IfOk-bind _ (IfOk-any (read_protocol_string buf [] f.object.adb.error)) (λ r u.
        IfOk-bind _ (IfOk-any (clear buf))
          (λ c u'. returned _ (Talks-ended (Talks-error r.error t))))

  deliver_all-Talks :
      (before : List Call) (events : List Event) (f : Frame HostCommand (Unit {0}))
      → FrameTalks host_class track_devices_message request [] before f
      → IfOk (FrameTalks host_class track_devices_message request [] before) (deliver_all events f)
  unfolding deliver_all
  deliver_all-Talks before [] f t = returned f t
  deliver_all-Talks before (e ∷ events) f t =
      IfOk-bind _
        (deliver-Talks host_class track_devices_message request [] track_devices_message-Keeps
          before e f t)
        (λ g p. deliver_all-Talks before events g p)

-- What is known of the outcome of a command on an object, by its request.
abbrev pub Outcome :
    HostCommand → {V : Type 0} → Bytes → Result (Frame HostCommand V × List Event) → Type 0
Outcome o request r = IfOk (λ x. Talks request [] (started request o.adb).calls x.0.object.adb) r

module _ (events : List Event) (o : HostCommand) where
  -- Every command writes nothing but its request.
  abbrev pub AllTalk : ℤ → Bytes → Bytes → Bytes → Type 0
  AllTalk version out host port =
      let track = codes "host:track-devices" in
      Outcome o (codes "host:version") (get_version events o version)
      × Outcome o (codes "host:devices") (get_devices events o out)
      × Outcome o (codes "host:devices-l") (get_devices_with_path events o out)
      × Outcome o (codes "host:kill") (kill events o)
      × Outcome o (codes "host:connect:" ++ (host ++ (b':' ∷ port))) (connect events o host port)
      × Outcome o (codes "host:disconnect:" ++ (host ++ (b':' ∷ port)))
          (disconnect events o host port)
      × IfOk (λ f. Talks track [] (started track o.adb).calls f.object.adb) (track_devices events o)

  pub commands-AllTalk : (version : ℤ) (out host port : Bytes) → AllTalk version out host port
  unfolding get_version get_devices get_devices_with_path kill connect disconnect track_devices
  commands-AllTalk version out host port =
      let track = codes "host:track-devices" in
      let status = λ (request : Bytes).
        execute-Talks host_class (read_status host_class) request []
          (read_status-Keeps host_class request) (negsuc 0) events o tt in
      (
        execute-Talks host_class version_message (codes "host:version") []
            (version_message-Keeps (codes "host:version")) (negsuc 0) events o version,
        execute-Talks host_class (read_into host_class) (codes "host:devices") []
            (read_into-Keeps host_class (codes "host:devices")) (pos 0) events o out,
        execute-Talks host_class devices_with_path_message (codes "host:devices-l") []
            (devices_with_path_message-Keeps (codes "host:devices-l")) (negsuc 0) events o out,
        status (codes "host:kill"),
        status (codes "host:connect:" ++ (host ++ (b':' ∷ port))),
        status (codes "host:disconnect:" ++ (host ++ (b':' ∷ port))),
        deliver_all-Talks track (started track o.adb).calls events _
            (begin-Talks host_class track_devices_message track [] o),
      )
