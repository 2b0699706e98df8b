-- ===== src/Command/Threads/Faults.antt =====
-- The event loop stopped by the fault of a callback, against `waits` on the list of events.
use adb_client.Base.{ℕ, ◌≡◌, refl, ap, ◌∙◌, false, List, [], ◌∷◌, ◌++◌}
use adb_client.Client.{Event, connection}
use adb_client.Command.Exchange.{IsQuiet, waits_next}
use adb_client.Command.Threads.History.{play, Run-History}
use adb_client.Command.Threads.Invariant.{deliver-flag}
use adb_client.Command.Threads.Outcome.{OneEnd}
use adb_client.Command.Threads.{
  System, stopped, Step, lock_waits, pass, sleep, leave, callback, fault, raise, lock_weak_up, set,
  unlock_weak_up, notify, wake, Run, here, step, spurious, waiting,
}
use adb_client.Command.{Derived, Frame, Handler, deliver, waits}
use adb_client.Fault.{Fault, ok, err, >>=-eq-ok}

module _ {O V : Type 0} (d : Derived O) (on_message : Handler O V) where
  -- The next callback is the one with the fault.
  record IsFaulty (s : System O V) (x : Fault) : Type 0 where
    event : Event
    rest : List Event
    next : s.events ≡ event ∷ rest
    faulty : deliver d on_message event s.frame ≡ err x

  abbrev Halts : System O V → Type 0
  Halts s = (x : Fault) → s.loop ≡ stopped x → IsFaulty s x

  kept :
      (s t : System O V)
      → s.frame ≡ t.frame
      → s.events ≡ t.events
      → (x : Fault) → IsFaulty s x
      → IsFaulty t x
  kept s t f e x h = record {
    event = h.event;
    rest = h.rest;
    next = rw (← e) h.next;
    faulty = rw (← f) h.faulty;
  }

  Step-Halts : {s t : System O V} → Step d on_message s t → Halts s → Halts t
  Step-Halts {s} (lock_waits w o) h = λ x l. kept s _ refl refl x (h x l)
  Step-Halts {s} (pass w o) h = λ x l. kept s _ refl refl x (h x l)
  Step-Halts {s} (sleep w o) h = λ x l. kept s _ refl refl x (h x l)
  Step-Halts {s} (leave w) h = λ x l. kept s _ refl refl x (h x l)
  Step-Halts {s} (callback e rest f i es n o) h = λ x l. absurd (cc)
  Step-Halts {s} (fault e rest x i es o) h = λ y l.
      let same : x ≡ y = cc in record { event = e; rest = rest; next = es; faulty = rw same at o }
  Step-Halts {s} (raise rest i es) h = λ x l. absurd (cc)
  Step-Halts {s} (lock_weak_up i o) h = λ x l. absurd (cc)
  Step-Halts {s} (set rest f i es o) h = λ x l. absurd (cc)
  Step-Halts {s} (unlock_weak_up i) h = λ x l. absurd (cc)
  Step-Halts {s} (notify i) h = λ x l. absurd (cc)

  Run-Halts :
      (events : List Event) (f : Frame O V) {s : System O V} {n k : ℕ}
      → Run d on_message (waiting events f) s n k
      → Halts s
  Run-Halts events f here = λ x l. absurd (cc)
  Run-Halts events f (step r st) = Step-Halts st (Run-Halts events f r)
  Run-Halts events f (spurious {t} r (wake w)) =
      λ x l. kept t _ refl refl x (Run-Halts events f r x l)

  played-fault :
      (q : IsQuiet d on_message) (before done rest : List Event) (e : Event) (f g : Frame O V)
      (x : Fault)
      → OneEnd d on_message before
      → before ++ (connection false ∷ []) ≡ done ++ (e ∷ rest)
      → play d on_message done f ≡ ok g
      → deliver d on_message e g ≡ err x
      → (d.base f.object).command_finished ≡ 0
      → waits d on_message (before ++ (connection false ∷ [])) f ≡ err x
  unfolding play
  played-fault q before [] rest e f g x n split played faulty z =
      let same : f ≡ g = cc in
      ap (λ (es : List Event). waits d on_message es f) split
      ∙ waits_next d on_message e rest f z
      ∙ rw same (rw faulty)
  played-fault q [] (c ∷ []) rest e f g x n split played faulty z =
      let none : ◌≡◌ {A = List Event} [] (e ∷ rest) = cc in absurd (cc)
  played-fault q [] (c ∷ a ∷ done) rest e f g x n split played faulty z =
      let none : ◌≡◌ {A = List Event} [] (a ∷ (done ++ (e ∷ rest))) = cc in absurd (cc)
  played-fault q (b ∷ before) (c ∷ done) rest e f g x n split played faulty z =
      let same : b ≡ c = cc in
      let others : before ++ (connection false ∷ []) ≡ done ++ (e ∷ rest) = cc in
      let (f', delivered, later) =
        >>=-eq-ok (deliver d on_message c f) (λ y. play d on_message done y) played in
      let first : deliver d on_message b f ≡ ok f' = rw same delivered in
      waits_next d on_message b (before ++ (connection false ∷ [])) f z
      ∙ rw first (
          played-fault q before done rest e f' g x n.1 others later faulty
            (deliver-flag d on_message q b f f' n.0 first ∙ z))

  -- Where the end of a connection is the last callback, the fault that stops the event loop is what
  -- `waits` comes to on the list of callbacks.
  pub stopped-waits :
      (q : IsQuiet d on_message) (before : List Event) (f : Frame O V) (s : System O V) (x : Fault)
      {n k : ℕ}
      → OneEnd d on_message before
      → (d.base f.object).command_finished ≡ 0
      → Run d on_message (waiting (before ++ (connection false ∷ [])) f) s n k
      → s.loop ≡ stopped x
      → waits d on_message (before ++ (connection false ∷ [])) f ≡ err x
  stopped-waits q before f s x one z r l =
      let h = Run-History d on_message q (before ++ (connection false ∷ [])) f z r in
      let b = Run-Halts (before ++ (connection false ∷ [])) f r x l in
      played-fault q before h.done b.rest b.event f s.frame x one
        (h.split ∙ ap (λ (es : List Event). h.done ++ es) b.next) h.played b.faulty z
