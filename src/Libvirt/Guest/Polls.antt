-- ===== src/Libvirt/Guest/Polls.antt =====
-- The commands that `guest_exec` of src/libvirt_backend.c sends, and what its answer rests on.
use qemu_snapshot_web_manage.Prelude.{
  ℕ, zero, suc, ◌+◌, ◌≤◌, ◌≡◌, ◌≢◌, refl, true, false, Option, none, some, Bytes, codes, inl, inr,
  Bool-cases, arith,
}
use qemu_snapshot_web_manage.Prelude.Int.{ℤ, pos, negsuc}
use qemu_snapshot_web_manage.Json.{Json}
use qemu_snapshot_web_manage.Util.Escape.{json_escape}
use qemu_snapshot_web_manage.Libvirt.Session.{Libvirt}
use qemu_snapshot_web_manage.Libvirt.Guest.{
  Agent, Outcome, failed, json_object_get, has_exited, exit_outcome, status_json, exec_json,
  with_status, with_reply, poll, started, sent, guest_exec, is_positive, pid_in, is_exit, exit_code,
}

-- What an agent has been asked for.
pub record Spent (W : Type 0) : Type 0 where
  pub commands : ℕ
  pub seconds : ℕ
  pub guest : W

-- The agent with its commands and the seconds of sleep counted.
abbrev pub counted : {W : Type 0} → Agent W → Agent (Spent W)
counted ga = record {
  command = λ vm_name text timeout s.
      let (result, w) = ga.command vm_name text timeout s.guest in
      (result, record s { commands = s.commands + 1; guest = w });
  sleep = λ seconds s. record s { seconds = s.seconds + seconds; guest = ga.sleep seconds s.guest };
  json_loads = ga.json_loads;
}

-- Between two states at most so many commands are sent and so many seconds are slept.
pub record IsWithin {W : Type 0} (before after : Spent W) (more_commands more_seconds : ℕ)
    : Type 0 where
  pub few : after.commands ≤ before.commands + more_commands
  pub short : after.seconds ≤ before.seconds + more_seconds

module _ {W : Type 0} (ga : Agent W) (vm_name : Bytes) where
  with_status-IsWithin :
      (again : Spent W → Outcome × Spent W) (resp : Option Json) (n m : ℕ) (s t : Spent W)
      → IsWithin s t n m
      → IsWithin s (again t).1 n m
      → IsWithin s (with_status again resp t).1 n m
  with_status-IsWithin again none n m s t now later = now
  with_status-IsWithin again (some resp) n m s t now later = elim (Bool-cases (has_exited resp)) [
    | inl over ↦ rw over now
    | inr more ↦ rw more later
  ]

  with_reply-IsWithin :
      (again : Spent W → Outcome × Spent W) (result : Option Bytes) (n m : ℕ) (s t : Spent W)
      → IsWithin s t n m
      → IsWithin s (again t).1 n m
      → IsWithin s (with_reply (counted ga) again result t).1 n m
  with_reply-IsWithin again none n m s t now later = now
  with_reply-IsWithin again (some result) n m s t now later =
      with_status-IsWithin again (ga.json_loads result) n m s t now later

  poll-IsWithin :
      (pid : ℤ) (left : ℕ) (s : Spent W)
      → IsWithin s (poll (counted ga) vm_name pid left s).1 left left
  unfolding poll
  poll-IsWithin pid zero s = record { few = omega arith; short = omega arith }
  poll-IsWithin pid (suc left) s =
      let (result, t) =
        (counted ga).command vm_name (status_json pid) 30 ((counted ga).sleep 1 s) in
      let rest = poll-IsWithin pid left t in
      with_reply-IsWithin (poll (counted ga) vm_name pid left) result (suc left) (suc left) s t
        (record { few = omega arith; short = omega arith })
        (record { few = omega (arith, rest.few); short = omega (arith, rest.short) })

  started-IsWithin :
      (resp : Option Json) (s : Spent W) → IsWithin s (started (counted ga) vm_name resp s).1 10 10
  started-IsWithin none s = record { few = omega arith; short = omega arith }
  started-IsWithin (some resp) s = elim (Bool-cases (is_positive (pid_in resp))) [
    | inl good ↦ rw good (poll-IsWithin (pid_in resp) 10 s)
    | inr bad ↦ rw bad (record { few = omega arith; short = omega arith })
  ]

  sent-IsWithin :
      (lv : Libvirt (Spent W)) (result : Option Bytes) (s : Spent W)
      → IsWithin s (sent lv (counted ga) vm_name result s).1 10 10
  sent-IsWithin lv none s = record { few = omega arith; short = omega arith }
  sent-IsWithin lv (some result) s = started-IsWithin (ga.json_loads result) s

  -- Whatever the agent answers, a command in the guest takes eleven commands of the agent at most, and
  -- ten seconds of sleep at most.
  pub guest_exec-IsWithin :
      (lv : Libvirt (Spent W)) (command : Bytes) (s : Spent W)
      → IsWithin s (guest_exec lv (counted ga) vm_name command s).1 11 10
  unfolding guest_exec
  guest_exec-IsWithin lv command s =
      let (result, t) =
        (counted ga).command vm_name (exec_json (json_escape (some command))) 30 s in
      let rest = sent-IsWithin lv result t in
      record { few = omega (arith, rest.few); short = omega (arith, rest.short) }

-- Some process was found to have exited with code 0: the agent's status of it says so, and the outcome
-- holds what it has printed.
pub record HasExited {W : Type 0} (ga : Agent W) (vm_name : Bytes) (outcome : Outcome)
    : Type 0 where
  pub pid : ℤ
  pub before : W
  pub result : Bytes
  pub resp : Json
  pub pid_is_positive : is_positive pid ≡ true
  pub answered : (ga.command vm_name (status_json pid) 30 before).0 ≡ some result
  pub parsed : ga.json_loads result ≡ some resp
  pub exited : has_exited resp ≡ true
  pub code_is_zero : exit_code (json_object_get (some resp) (codes "return")) ≡ pos 0
  pub outcome_is : outcome ≡ exit_outcome (json_object_get (some resp) (codes "return"))

-- A command that succeeds is known to have, and one that fails comes with a message.
abbrev pub IsTold : {W : Type 0} → Agent W → Bytes → Outcome → Type 0
IsTold ga vm_name outcome =
    (outcome.success ≡ true → HasExited ga vm_name outcome)
    × (outcome.success ≡ false → outcome.message ≢ none)

is_exit-eq : (code : ℤ) (n : ℕ) → is_exit code n ≡ true → code ≡ pos n
is_exit-eq (pos m) n h = ground arith
is_exit-eq (negsuc m) n h = ground arith

exit_outcome-code : (ret : Option Json) → (exit_outcome ret).success ≡ true → exit_code ret ≡ pos 0
unfolding exit_outcome
exit_outcome-code ret h = elim (Bool-cases (is_exit (exit_code ret) 0)) [
  | inl zero_code ↦ is_exit-eq (exit_code ret) 0 zero_code
  | inr other ↦ let no : false ≡ true = rw other at h in cc
]

exit_outcome-message :
    (ret : Option Json) → (exit_outcome ret).success ≡ false → (exit_outcome ret).message ≢ none
unfolding exit_outcome
exit_outcome-message ret h = ground arith

module _ {W : Type 0} (lv : Libvirt W) (ga : Agent W) (vm_name : Bytes) where
  failed-IsTold : (message : Bytes) → IsTold ga vm_name (failed message)
  failed-IsTold message = (λ h. absurd (cc), λ h. cc)

  exited-IsTold :
      (pid : ℤ) (before : W) (result : Bytes) (resp : Json)
      → is_positive pid ≡ true
      → (ga.command vm_name (status_json pid) 30 before).0 ≡ some result
      → ga.json_loads result ≡ some resp
      → has_exited resp ≡ true
      → IsTold ga vm_name (exit_outcome (json_object_get (some resp) (codes "return")))
  exited-IsTold pid before result resp positive answered parsed exited = (
    λ h. record {
      pid = pid;
      before = before;
      result = result;
      resp = resp;
      pid_is_positive = positive;
      answered = answered;
      parsed = parsed;
      exited = exited;
      code_is_zero = exit_outcome-code (json_object_get (some resp) (codes "return")) h;
      outcome_is = refl;
    },
    exit_outcome-message (json_object_get (some resp) (codes "return")),
  )

  with_status-IsTold :
      (pid : ℤ) (before : W) (result : Bytes) (again : W → Outcome × W) (resp : Option Json) (w : W)
      → is_positive pid ≡ true
      → (ga.command vm_name (status_json pid) 30 before).0 ≡ some result
      → ga.json_loads result ≡ resp
      → IsTold ga vm_name (again w).0
      → IsTold ga vm_name (with_status again resp w).0
  with_status-IsTold pid before result again none w positive answered parsed later = failed-IsTold _
  with_status-IsTold pid before result again (some resp) w positive answered parsed later =
      elim (Bool-cases (has_exited resp)) [
        | inl exited ↦
            rw exited (exited-IsTold pid before result resp positive answered parsed exited)
        | inr more ↦ rw more later
      ]

  with_reply-IsTold :
      (pid : ℤ) (before : W) (again : W → Outcome × W) (result : Option Bytes) (w : W)
      → is_positive pid ≡ true
      → (ga.command vm_name (status_json pid) 30 before).0 ≡ result
      → IsTold ga vm_name (again w).0
      → IsTold ga vm_name (with_reply ga again result w).0
  with_reply-IsTold pid before again none w positive answered later = failed-IsTold _
  with_reply-IsTold pid before again (some result) w positive answered later =
      with_status-IsTold pid before result again (ga.json_loads result) w positive answered refl
        later

  poll-IsTold :
      (pid : ℤ) (left : ℕ) (w : W)
      → is_positive pid ≡ true
      → IsTold ga vm_name (poll ga vm_name pid left w).0
  unfolding poll
  poll-IsTold pid zero w positive = failed-IsTold _
  poll-IsTold pid (suc left) w positive =
      let (result, w') = ga.command vm_name (status_json pid) 30 (ga.sleep 1 w) in
      with_reply-IsTold pid (ga.sleep 1 w) (poll ga vm_name pid left) result w' positive refl
        (poll-IsTold pid left w' positive)

  started-IsTold : (resp : Option Json) (w : W) → IsTold ga vm_name (started ga vm_name resp w).0
  started-IsTold none w = failed-IsTold _
  started-IsTold (some resp) w = elim (Bool-cases (is_positive (pid_in resp))) [
    | inl good ↦ rw good (poll-IsTold (pid_in resp) 10 w good)
    | inr bad ↦ rw bad (failed-IsTold _)
  ]

  sent-IsTold : (result : Option Bytes) (w : W) → IsTold ga vm_name (sent lv ga vm_name result w).0
  sent-IsTold none w = failed-IsTold _
  sent-IsTold (some result) w = started-IsTold (ga.json_loads result) w

  -- A command succeeds only if the agent has said of a process that it has exited, with code 0, and the
  -- outcome is made of that answer. A command that fails comes with a message.
  pub guest_exec-IsTold :
      (command : Bytes) (w : W) → IsTold ga vm_name (guest_exec lv ga vm_name command w).0
  unfolding guest_exec
  guest_exec-IsTold command w =
      let (result, w') = ga.command vm_name (exec_json (json_escape (some command))) 30 w in
      sent-IsTold result w'
