-- ===== src/Application/FindService/Found.antt =====
-- What `find` of FindService.cpp returns.
use lx.Base.{
  [], ◌∷◌, some, none, true, inl, inr, Bytes, List, ◌≡◌, In, ◌↔◌, refl, Bool-cases, is_nil,
  cons-ne-nil, ◌⊎◌, ◌&&◌, Option, ap, sym, ℤ, nat_Eq, list_Eq, int_Eq, option_Eq, map, In-keep,
  contains, contains-In, text, In-of-map, In-map, keep, ◌++◌, list_ltb, arith, ltb,
}
use lx.Domain.{
  success, failure, Result, ProcessInfo, Observation, ServiceInfo, PortInfo, not_found, any_process,
  any_socket, invalid_argument,
}
use lx.Application.FindService.{
  FindResult, FindService, find, executables_of, not_empty, found_of, lower, service_matches,
  add_executable, port_found, listed, find_error, processes_found, units_found, find_lowered,
}
use lx.Application.FindService.Matches.{
  Names, found_iff, IsNamed, InUnit, some-value, or_iff, names_iff, any_of_iff, unit_iff, IsPidOf,
}
use lx.Base.Decimal.{to_string}
use lx.Exec.{proceed, Machine, ◌>>=◌, attempt, lift, fail}
use lx.Base.Sort.{In-unique, In-sort}
use lx.Exec.Returns.{success-injective}
use lx.Application.ProcessService
use lx.Application.PortService.Inspect
use lx.Application.ServiceService

abbrev pub IsSomething : FindResult → Type 0
IsSomething r = ¬ ((r.services ≡ []) × (r.processes ≡ []) × (r.ports ≡ []) × (r.executables ≡ []))

-- What a search has found, in what the services have listed.
pub record IsFound (query : Bytes) (all_services : Result (Observation (List ServiceInfo)))
    (all_processes : Observation (List ProcessInfo))
    (all_ports : Result (Observation (List PortInfo))) (r : FindResult) : Type 0 where
  pub services :
      (s : ServiceInfo)
      → In s r.services
        ↔ ((Names query s.unit_name ⊎ Names query s.description) × In s (listed all_services))
  pub processes :
      (p : ProcessInfo)
      → In p r.processes ↔ ((IsNamed query p ⊎ InUnit r.services p) × In p all_processes.value)
  pub ports :
      (x : PortInfo)
      → In x r.ports ↔ (
          ((Names query (to_string x.socket.local.port)
              ⊎ ((pid : ℤ) × In pid x.socket.owner_pids × IsPidOf r.processes pid))
            ⊎ ((owner : ProcessInfo) × In owner x.owners × InUnit r.services owner))
          × In x (listed all_ports))
  pub executables :
      (path : Bytes)
      → In path r.executables ↔ ((p : ProcessInfo) × In p r.processes × (p.executable ≡ some path))
  pub some_found : IsSomething r

add_iff :
    (path : Bytes) (executable : Option Bytes) (executables : List Bytes)
    → In path (add_executable executable executables)
      ↔ ((executable ≡ some path) ⊎ In path executables)
unfolding add_executable
add_iff path none xs = (λ m. inr m, λ h. elim h [ inl e ↦ absurd cc | inr m ↦ m ])
add_iff path (some x) xs = (
  λ h. elim h [ inl e ↦ inl (ap some (sym e)) | inr m ↦ inr m ],
  λ h. elim h [ inl e ↦ inl (sym (some-value e)) | inr m ↦ inr m ],
)

executables_iff :
    (path : Bytes) (processes : List ProcessInfo)
    → In path (executables_of processes)
      ↔ ((p : ProcessInfo) × In p processes × (p.executable ≡ some path))
unfolding executables_of
executables_iff path [] = (λ h. absurd h, λ (p, m, e). absurd m)
executables_iff path (process ∷ rest) =
    let a = add_iff path process.executable (executables_of rest) in
    let r = executables_iff path rest in
    (
      λ h. elim (a.0 h) [
        | inl e ↦ (process, inl refl, e)
        | inr m ↦ let (p, k, e) = r.0 m in (p, inr k, e)
      ],
      λ (p, m, e). elim m [
        | inl same ↦ a.1 (inl (rw (← same) e))
        | inr k ↦ a.1 (inr (r.1 (p, k, e)))
      ],
    )

is_nil-nil : {A : Type 0} (xs : List A) → xs ≡ [] → is_nil xs ≡ true
is_nil-nil [] e = refl
is_nil-nil (x ∷ xs) e = absurd (cons-ne-nil x xs e)

not_empty-success :
    (query : Bytes) (found r : FindResult)
    → not_empty query found ≡ success r
    → (found ≡ r) × IsSomething found
unfolding not_empty
not_empty-success query found r h =
    elim (Bool-cases (
      is_nil found.services
      && is_nil found.processes
      && is_nil found.ports
      && is_nil found.executables)) [
        | inl t ↦
            let bad : ◌≡◌ {A = Result FindResult}
                (failure (
                  find_error not_found
                    (text "No observable resource matched \"" ++ (query ++ text "\""))))
                (success r) =
              rw t at h in
            absurd cc
        | inr f ↦ (
          success-injective (rw f at h),
          λ (a, b, c, d).
              let w = is_nil-nil _ a in
              let x = is_nil-nil _ b in
              let y = is_nil-nil _ c in let z = is_nil-nil _ d in ground arith,
        )
      ]

pid_iff :
    (pid : ℤ) (found : List ProcessInfo)
    → (contains pid (map (λ (p : ProcessInfo). p.pid) found) ≡ true) ↔ IsPidOf found pid
pid_iff pid found =
    let i = contains-In pid (map (λ (p : ProcessInfo). p.pid) found) in
    (
      λ h. In-of-map (λ (p : ProcessInfo). p.pid) pid found (i.0 h),
      λ (p, m, e). i.1 (rw e (In-map (λ (q : ProcessInfo). q.pid) p found m)),
    )

ports_iff :
    (query : Bytes) (services : Result (Observation (List ServiceInfo)))
    (processes : Observation (List ProcessInfo)) (x : PortInfo)
    → (port_found
          (lower query)
          (map (λ (p : ProcessInfo). p.pid) (processes_found (lower query) services processes))
          (units_found (lower query) services)
          x
        ≡ true)
      ↔ ((Names query (to_string x.socket.local.port)
            ⊎ ((pid : ℤ) × In pid x.socket.owner_pids
                × IsPidOf (processes_found (lower query) services processes) pid))
          ⊎ ((owner : ProcessInfo) × In owner x.owners
              × InUnit (keep (service_matches (lower query)) (listed services)) owner))
unfolding port_found
ports_iff query services processes x =
    or_iff _ _
      (or_iff _ _ (names_iff query (to_string x.socket.local.port)) (
        any_of_iff _ x.socket.owner_pids
          (λ pid. pid_iff pid (processes_found (lower query) services processes))))
      (any_of_iff _ x.owners
        (λ (owner : ProcessInfo). unit_iff (lower query) services owner.systemd_unit))

found_of-IsFound :
    (query : Bytes) (services : Result (Observation (List ServiceInfo)))
    (processes : Observation (List ProcessInfo)) (ports : Result (Observation (List PortInfo)))
    → IsSomething (found_of (lower query) services processes ports)
    → IsFound query services processes ports (found_of (lower query) services processes ports)
unfolding found_of service_matches port_found
found_of-IsFound query services processes ports h = record {
  services = λ s.
      let k = In-keep _ s (listed services) in
      let o = or_iff _ _ (names_iff query s.unit_name) (names_iff query s.description) in
      (λ m. (o.0 (k.0 m).0, (k.0 m).1), λ (n, m). k.1 (o.1 n, m));
  processes = λ p. found_iff query services processes p;
  ports = λ x.
      let k = In-keep _ x (listed ports) in
      let o = ports_iff query services processes x in
      (λ m. (o.0 (k.0 m).0, (k.0 m).1), λ (n, m). k.1 (o.1 n, m));
  executables = λ path.
      let u = In-unique path _ in
      let t = In-sort (list_ltb ltb) path _ in
      let e = executables_iff path _ in (λ m. e.0 (t.0 (u.0 m)), λ n. u.1 (t.1 (e.1 n)));
  some_found = h;
}

rest-IsFound :
    {W : Type 0} (self : FindService W) (query : Bytes) (m' : Machine W) (r : FindResult)
    (services : Result (Observation (List ServiceInfo)))
    (processes : Result (Observation (List ProcessInfo))) (m : Machine W)
    → proceed
        (λ processes. attempt (Inspect.inspect self.ports any_socket) >>= λ ports.
          lift (not_empty query (found_of (lower query) services processes ports)))
        (processes, m)
      ≡ (success r, m')
    → (observed : Observation (List ProcessInfo)) × (processes ≡ success observed)
      × IsFound query services observed (Inspect.inspect self.ports any_socket m).0 r
unfolding proceed ◌>>=◌ attempt lift
rest-IsFound self query m' r services (failure e) m h = absurd (let bad = ap (λ x. x.0) h in cc)
rest-IsFound self query m' r services (success observed) m h =
    let ports = (Inspect.inspect self.ports any_socket m).0 in
    let (same, something) = not_empty-success query _ r (ap (λ x. x.0) h) in
    (observed, refl, rw (← same) (found_of-IsFound query services observed ports something))

lowered-IsFound :
    {W : Type 0} (self : FindService W) (query : Bytes) (m m' : Machine W) (r : FindResult)
    → find_lowered self query (lower query) m ≡ (success r, m')
    → (observed : Observation (List ProcessInfo)) × ((ProcessService.list self.processes any_process
          (ServiceService.list self.services m).1).0
        ≡ success observed)
      × IsFound query
          (ServiceService.list self.services m).0
          observed
          (Inspect.inspect self.ports any_socket
            (ProcessService.list self.processes any_process
              (ServiceService.list self.services m).1).1).0
          r
unfolding find_lowered attempt ◌>>=◌ proceed
lowered-IsFound self query m m' r h =
    rest-IsFound self query m' r _
      (ProcessService.list self.processes any_process (ServiceService.list self.services m).1).0
      (ProcessService.list self.processes any_process (ServiceService.list self.services m).1).1 h

-- Where a search succeeds, its result has exactly these: of the services that were listed, those whose
-- name or description the text is part of; of the processes, those whose name, user, executable or
-- argument it is part of and those of such a service; of the ports, those whose number it is part of,
-- those that such a process owns and those that a process of such a service owns; and the executables
-- of such processes. Case does not count. One of them is not empty. Services or ports that
-- cannot be listed count as none, while processes that cannot be listed are an error.
pub find-IsFound :
    {W : Type 0} (self : FindService W) (query : Bytes) (m m' : Machine W) (r : FindResult)
    → find self query m ≡ (success r, m')
    → (observed : Observation (List ProcessInfo)) × ((ProcessService.list self.processes any_process
          (ServiceService.list self.services m).1).0
        ≡ success observed)
      × IsFound query
          (ServiceService.list self.services m).0
          observed
          (Inspect.inspect self.ports any_socket
            (ProcessService.list self.processes any_process
              (ServiceService.list self.services m).1).1).0
          r
unfolding find
find-IsFound self query m m' r h = elim (Bool-cases (is_nil (lower query))) [
  | inl t ↦
      let refused : fail (find_error invalid_argument (text "Find query must not be empty")) m
          ≡ (success r, m') =
        rw t at h in
      absurd (unfold fail in let bad = ap (λ x. x.0) refused in cc)
  | inr f ↦
      let run : find_lowered self query (lower query) m ≡ (success r, m') = rw f at h in
      lowered-IsFound self query m m' r run
]
