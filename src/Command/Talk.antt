-- ===== src/Command/Talk.antt =====
-- What a command may write, whatever the callbacks are: connections, reads and ends in any order,
-- any number of them, with any bytes.
pub mod Replies
use adb_client.Base.{
  ◌≡◌, ◌⊎◌, inl, refl, sym, ap, ◌∙◌, true, false, Bool, List, [], ◌∷◌, ◌++◌, append_assoc,
  append-nil, Bytes, ℤ, length, ◌==◌, if◌then◌else◌,
}
use adb_client.Client.{Buffer, Call, write, Event, connection, message}
use adb_client.Command.Exchange.{sent, started, ended, deliver_up, deliver_down, begin_lem}
use adb_client.Command.{AdbCommand, Derived, Frame, Handler, deliver, waits, begin, execute}
use adb_client.Fault.{Fault, Result, ok, err, ◌>>=◌}
use adb_client.Printf.Hex.{format_04x}

-- A result that is a fault, or a value of which `P` holds.
pub data IfOk {V : Type 0} (P : V → Type 0) : Result V → Type 0 where
  returned : (v : V) → P v → IfOk P (ok v)
  faulted : (x : Fault) → IfOk P (err x)

pub IfOk-bind :
    {V W : Type 0} {P : V → Type 0} {Q : W → Type 0} (next : V → Result W) {r : Result V}
    → IfOk P r
    → ((v : V) → P v → IfOk Q (next v))
    → IfOk Q (r >>= next)
IfOk-bind next (returned v p) h = h v p
IfOk-bind next (faulted x) h = faulted x

-- nothing is known of the value
pub IfOk-any : {V : Type 0} (r : Result V) → IfOk (λ v. Unit {0}) r
IfOk-any (ok v) = returned v tt
IfOk-any (err x) = faulted x

pub IfOk-if :
    {V : Type 0} {P : V → Type 0} (b : Bool) {r s : Result V}
    → IfOk P r
    → IfOk P s
    → IfOk P (if b then r else s)
IfOk-if true p q = p
IfOk-if false p q = q

pub IfOk-ok_if :
    {V : Type 0} {P : V → Type 0} (b : Bool) (v w : V)
    → P v
    → P w
    → IfOk P (ok (if b then v else w))
IfOk-ok_if true v w p q = returned v p
IfOk-ok_if false v w p q = returned w q

-- One of these texts is written behind its length.
abbrev pub IsWriteOf : List Bytes → Call → Type 0
IsWriteOf [] c = ⊥
IsWriteOf (text ∷ texts) c = (c ≡ write (format_04x (length text) ++ text)) ⊎ IsWriteOf texts c

abbrev pub AllWritesOf : List Bytes → List Call → Type 0
AllWritesOf texts [] = Unit
AllWritesOf texts (c ∷ calls) = IsWriteOf texts c × AllWritesOf texts calls

AllWritesOf-append :
    (texts : List Bytes) (a b : List Call)
    → AllWritesOf texts a
    → AllWritesOf texts b
    → AllWritesOf texts (a ++ b)
AllWritesOf-append texts [] b h k = k
AllWritesOf-append texts (c ∷ a) b h k = (h.0, AllWritesOf-append texts a b h.1 k)

-- A base part with the text of its request, which has made the calls `before` and then has written
-- the request and the service, in any order and number.
pub record Talks (request : Bytes) (services : List Bytes) (before : List Call) (b : AdbCommand)
    : Type 0 where
  pub named : b.command ≡ request
  pub talk : List Call
  pub made : b.calls ≡ before ++ talk
  pub allowed : AllWritesOf (request ∷ services) talk

-- Further writes of the request and the services.
pub Talks-write :
    {request : Bytes} {services : List Bytes} {before : List Call} {b : AdbCommand}
    (calls : List Call)
    → AllWritesOf (request ∷ services) calls
    → Talks request services before b
    → Talks request services before (record b { calls = b.calls ++ calls })
Talks-write {request} {services} {before} {b} calls h t = record {
  named = t.named;
  talk = t.talk ++ calls;
  made = ap (λ (x : List Call). x ++ calls) t.made ∙ append_assoc before t.talk calls;
  allowed = AllWritesOf-append (request ∷ services) t.talk calls t.allowed h;
}

Talks-sent :
    {request : Bytes} {services : List Bytes} {before : List Call} {b : AdbCommand}
    → Talks request services before b
    → Talks request services before (sent b)
Talks-sent {b = b} t =
    Talks-write (write (format_04x (length b.command) ++ b.command) ∷ [])
      (inl (ap (λ (s : Bytes). write (format_04x (length s) ++ s)) t.named), tt) t

-- The error text is no part of the talk.
pub Talks-error :
    {request : Bytes} {services : List Bytes} {before : List Call} {b : AdbCommand} (error : Bytes)
    → Talks request services before b
    → Talks request services before (record b { error = error })
Talks-error error t = record { named = t.named; talk = t.talk; made = t.made; allowed = t.allowed }

pub Talks-ended :
    {request : Bytes} {services : List Bytes} {before : List Call} {b : AdbCommand}
    → Talks request services before b
    → Talks request services before (ended b)
Talks-ended t = record { named = t.named; talk = t.talk; made = t.made; allowed = t.allowed }

module _ {O V : Type 0} (d : Derived O) (on_message : Handler O V) (request : Bytes)
    (services : List Bytes) where
  -- What is known of a frame by its base part.
  abbrev pub FrameTalks : List Call → Frame O V → Type 0
  FrameTalks before f = Talks request services before (d.base f.object)

  -- The outcome of a command that has been started on an object.
  abbrev pub OutcomeTalks : O → Result (Frame O V × List Event) → Type 0
  OutcomeTalks o = IfOk (λ r. FrameTalks (started request (d.base o)).calls r.0)

  -- A message callback that writes nothing but the services.
  abbrev pub KeepsTalk : Type 0
  KeepsTalk =
      (before : List Call) (buf : Buffer) (f : Frame O V)
      → FrameTalks before f
      → IfOk (λ r. FrameTalks before r.0) (on_message buf f)

  pub set_base-Talks :
      (before : List Call) (o : O) (b : AdbCommand)
      → Talks request services before b
      → Talks request services before (d.base (d.set_base o b))
  set_base-Talks before o b t = rw (d.base-set_base o b) t

  -- A command that starts has made the calls that start it, and has written nothing yet.
  pub begin-Talks :
      (o : O)
      → Talks request services
          (started request (d.base o)).calls
          (d.base (begin d on_message request o))
  begin-Talks o =
      let b = started request (d.base o) in
      rw (begin_lem d on_message request o) (
        set_base-Talks b.calls o b
          (record { named = refl; talk = []; made = sym (append-nil b.calls); allowed = tt }))

  module _ (keeps : KeepsTalk) (before : List Call) where
    pub deliver-Talks :
        (e : Event) (f : Frame O V)
        → FrameTalks before f
        → IfOk (FrameTalks before) (deliver d on_message e f)
    unfolding deliver
    deliver-Talks (connection true) f t =
        rw (deliver_up d on_message f)
          (returned _ (set_base-Talks before f.object (sent (d.base f.object)) (Talks-sent t)))
    deliver-Talks (connection false) f t =
        rw (deliver_down d on_message f)
          (returned _ (set_base-Talks before f.object (ended (d.base f.object)) (Talks-ended t)))
    deliver-Talks (message buf) f t = IfOk-bind _ (keeps before buf f t) (λ r p. returned r.0 p)

    waits-Talks :
        (events : List Event) (f : Frame O V)
        → FrameTalks before f
        → IfOk (λ r. FrameTalks before r.0) (waits d on_message events f)
    unfolding waits
    waits-Talks [] f t =
        IfOk-if ((d.base f.object).command_finished == 1) (returned _ t) (faulted _)
    waits-Talks (e ∷ events) f t =
        IfOk-if ((d.base f.object).command_finished == 1) (returned _ t)
          (IfOk-bind _ (deliver-Talks e f t) (λ g p. waits-Talks events g p))

  -- With such a message callback, a command that returns has written nothing but its request and
  -- the services, whatever the events.
  pub execute-Talks :
      KeepsTalk
      → (status : ℤ) (events : List Event) (o : O) (out : V)
      → OutcomeTalks o (execute d on_message request status events o out)
  unfolding execute
  execute-Talks keeps status events o out =
      waits-Talks keeps (started request (d.base o)).calls events _ (begin-Talks o)
