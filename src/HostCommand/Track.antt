-- ===== src/HostCommand/Track.antt =====
-- `track_devices`, which returns at once, and the wait for the tracked devices behind it.
use adb_client.Base.{ℕ, ◌≤◌, ◌≡◌, refl, ◌∙◌, List, [], ◌∷◌, Bytes, codes, HasNoNul, true, pos, ℤ}
use adb_client.Client.{Event, connection, message}
use adb_client.Command.Exchange.{
  sent, ended, started, begin_lem, deliver_up, update, waits_next, waits_ended,
}
use adb_client.Command.ReadBuffer.{clear-received}
use adb_client.Command.Replies.{with_error}
use adb_client.Command.{Frame, deliver, waits, begin, weak_up}
use adb_client.Fault.{Result, ok, err, ◌>>=◌, dangling}
use adb_client.HostCommand.{
  HostCommand, host_class, track_devices, track_devices_message, late_track_devices_message,
  deliver_all,
}
use adb_client.Protocol.Read.{received, interpret, read_protocol_string-received}

-- `execute_host_command` of main.cpp from `track_devices` to `get_tracked_devices`: `early` are the
-- callbacks that are made before `track_devices` returns, and `late` the others. The result has the
-- status that `track_devices` returns.
unfoldable pub tracked_devices :
    List Event → List Event → HostCommand → Result (HostCommand × ℤ × List Event)
tracked_devices early late o = do
  f ← track_devices early o
  r ← waits host_class late_track_devices_message late f
  ok (r.0.object, f.status, r.1)

-- The object that asks for the devices.
abbrev asking : HostCommand → HostCommand
asking o = record o { adb = started (codes "host:track-devices") o.adb }

begin_track :
    (o : HostCommand)
    → begin host_class track_devices_message (codes "host:track-devices") o ≡ asking o
begin_track o = begin_lem host_class track_devices_message (codes "host:track-devices") o

track_devices_none :
    (o : HostCommand)
    → track_devices [] o ≡ ok (record { object = asking o; status = pos 0; out = tt })
unfolding track_devices deliver_all
track_devices_none o = rw (begin_track o)

late_lem :
    (room : ℕ) (chunk : Bytes) (rest : List Event) (f : Frame HostCommand (Unit {0}))
    → 3 ≤ room
    → HasNoNul chunk
    → f.object.adb.command_finished ≡ 0
    → waits host_class late_track_devices_message (message (received room chunk) ∷ rest) f
      ≡ err dangling
unfolding late_track_devices_message deliver
late_lem room chunk rest f space t z =
    waits_next host_class late_track_devices_message (message (received room chunk)) rest f z
    ∙ rw (read_protocol_string-received room chunk [] f.object.adb.error space t)

module _ (room : ℕ) (chunk : Bytes) (rest : List Event) (o : HostCommand) (space : 3 ≤ room)
    (no_nul : HasNoNul chunk) where
  -- Where the first reply comes after `track_devices` has returned, the wait ends in the write to a
  -- local variable that is gone. The reply has no NUL and leaves four bytes of the buffer.
  pub tracked_devices-late :
      tracked_devices [] (connection true ∷ message (received room chunk) ∷ rest) o ≡ err dangling
  unfolding tracked_devices
  tracked_devices-late =
      let f : Frame HostCommand (Unit {0}) = record {
        object = asking o;
        status = pos 0;
        out = tt;
      } in
      rw (track_devices_none o) (
        rw
          (waits_next host_class late_track_devices_message (connection true)
            (message (received room chunk) ∷ rest) f refl)
          (rw (deliver_up host_class late_track_devices_message f) (
            rw (
              late_lem room chunk rest (update host_class late_track_devices_message sent f) space
                no_nul refl))))

  -- Where the connection and the first reply come before `track_devices` returns, the text of the
  -- reply is stored in the object, its status is returned, and the wait behind it returns at once,
  -- whatever comes later. The reply has no NUL and leaves four bytes of the buffer.
  pub tracked_devices-early :
      tracked_devices (connection true ∷ message (received room chunk) ∷ []) rest o ≡ (
        let r = interpret chunk [] o.adb.error in
        ok (
          record {
            adb = ended (with_error r.error (sent (started (codes "host:track-devices") o.adb)));
            tracked_device = r.result;
          },
          r.status,
          rest,
        ))
  unfolding tracked_devices track_devices deliver_all deliver track_devices_message weak_up
  tracked_devices-early =
      let f : Frame HostCommand (Unit {0}) = record {
        object = asking o;
        status = pos 0;
        out = tt;
      } in
      let r = interpret chunk [] o.adb.error in
      let g : Frame HostCommand (Unit {0}) = record {
        object = record {
          adb = ended (with_error r.error (sent (started (codes "host:track-devices") o.adb)));
          tracked_device = r.result;
        };
        status = r.status;
        out = tt;
      } in
      rw (begin_track o) (
        rw (deliver_up host_class track_devices_message f) (
          rw (read_protocol_string-received room chunk [] o.adb.error space no_nul) (
            rw (clear-received room chunk)
              (rw (waits_ended host_class late_track_devices_message rest g refl)))))
