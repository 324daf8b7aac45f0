-- ===== src/Linux/Procfs/Processes/Reads.antt =====
-- What `get` of ProcFsProcessProvider.cpp reads of a process, and why it fails.
use lx.Base.{
  refl, nat_Eq, list_Eq, int_Eq, option_Eq, ℤ, Bytes, ◌≡◌, text, ◌⊎◌, inl, ◌≢◌, inr, ◌==◌,
  int_eq_iff,
}
use lx.Linux.Procfs.Processes.{
  ProcFsProcessProvider, get, get_checked, get_details, process_of_files, state_name,
}
use lx.Domain.{ProcessInfo, Error, success, failure}
use lx.Linux.Procfs.Stat.{StatRecord, parse_stat}
use lx.Linux.Procfs.Reader.{read_file}
use lx.Exec.Returns.{
  Returns, Returns-bind, Returns-lift, Returns-ask, Returns-if, Returns-after, Returns-pure,
  Returns-fail,
}
use lx.Exec.Fails.{
  Fails, Fails-bind, Fails-ask, Fails-lift, Fails-tried, Fails-if, Fails-fail, Fails-pure,
}
use lx.Exec.{ask}
use lx.Linux.Procfs.Status.{StatusRecord, parse_status}

module _ {W : Type 0} (self : ProcFsProcessProvider W) where
  -- a text that the file of the process held when it was read
  abbrev pub IsText : ℤ → Bytes → Bytes → Type 0
  IsText pid name contents =
      (w : W) × ((read_file self.system self.files pid name w).0 ≡ success contents)

  -- The record holds what the stat file of the process, with its own PID, and its status file said.
  pub record IsProcess (pid : ℤ) (info : ProcessInfo) : Type 0 where
    pub stat_text : Bytes
    pub stat_held : IsText pid (text "stat") stat_text
    pub stat : StatRecord
    pub stat_read : parse_stat stat_text ≡ success stat
    pub stat_pid : stat.pid ≡ pid
    pub status_text : Bytes
    pub status_held : IsText pid (text "status") status_text
    pub status : StatusRecord
    pub status_read : parse_status status_text ≡ success status
    pub own_pid : info.pid ≡ pid
    pub parent : info.ppid ≡ stat.ppid
    pub name : info.name ≡ stat.name
    pub state : info.state ≡ state_name stat.state
    pub ids : (info.uid ≡ status.uid) × (info.gid ≡ status.gid)
    pub sizes : (info.threads ≡ status.threads) × (info.rss_bytes ≡ status.rss_bytes)

  -- Why a process is left out: its stat or status file cannot be read, holds no record, or the stat
  -- file is of another PID.
  pub data IsUnreadable (pid : ℤ) : Type 0 where
    unread :
        (name : Bytes) (w : W) (e : Error)
        → (name ≡ text "stat") ⊎ (name ≡ text "status")
        → (read_file self.system self.files pid name w).0 ≡ failure e
        → IsUnreadable pid
    bad_stat :
        (contents : Bytes) (e : Error)
        → IsText pid (text "stat") contents
        → parse_stat contents ≡ failure e
        → IsUnreadable pid
    other_pid :
        (contents : Bytes) (stat : StatRecord)
        → IsText pid (text "stat") contents
        → parse_stat contents ≡ success stat
        → stat.pid ≢ pid
        → IsUnreadable pid
    bad_status :
        (contents : Bytes) (e : Error)
        → IsText pid (text "status") contents
        → parse_status contents ≡ failure e
        → IsUnreadable pid

  read-IsText :
      (pid : ℤ) (name : Bytes)
      → Returns (IsText pid name) (ask (read_file self.system self.files pid name))
  read-IsText pid name = Returns-ask _ _ (λ w contents h. (w, h))

  read-IsUnreadable :
      (pid : ℤ) (name : Bytes)
      → (name ≡ text "stat") ⊎ (name ≡ text "status")
      → Fails (IsUnreadable pid) (ask (read_file self.system self.files pid name))
  read-IsUnreadable pid name n = Fails-ask _ _ (λ w e h. unread name w e n h)

  module _ (pid : ℤ) (stat : StatRecord) (stat_text : Bytes)
      (held : IsText pid (text "stat") stat_text)
      (parsed : parse_stat stat_text ≡ success stat) where
    get_details-IsProcess :
        stat.pid ≡ pid → Returns (λ o. IsProcess pid o.value) (get_details self pid stat)
    unfolding get_details process_of_files
    get_details-IsProcess e =
        Returns-bind _ (IsText pid (text "status")) _ _ (read-IsText pid (text "status"))
          (λ status_text status_held.
            Returns-bind _ (λ status. parse_status status_text ≡ success status) _ _
              (Returns-lift _ _ (λ status h. h))
              (λ status h. Returns-after _ _ _ (λ user. Returns-after _ _ _ (λ cmdline.
                Returns-after _ _ _ (λ exe. Returns-after _ _ _ (λ cwd. Returns-pure _ _ (record {
                  stat_text = stat_text;
                  stat_held = held;
                  stat = stat;
                  stat_read = parsed;
                  stat_pid = e;
                  status_text = status_text;
                  status_held = status_held;
                  status = status;
                  status_read = h;
                  own_pid = refl;
                  parent = refl;
                  name = refl;
                  state = refl;
                  ids = (refl, refl);
                  sizes = (refl, refl);
                })))))))

    get_details-IsUnreadable : Fails (IsUnreadable pid) (get_details self pid stat)
    unfolding get_details
    get_details-IsUnreadable =
        Fails-bind _ (IsText pid (text "status")) _ _ (read-IsText pid (text "status"))
          (read-IsUnreadable pid (text "status") (inr refl))
          (λ status_text status_held.
            Fails-bind _ (λ status. Unit) _ _ (Returns-lift _ _ (λ status h. tt))
              (Fails-lift _ _ (λ e h. bad_status status_text e status_held h))
              (λ status h. Fails-tried _ _ _ (λ user.
                Fails-tried _ _ _ (λ cmdline.
                  Fails-tried _ _ _ (λ exe. Fails-tried _ _ _ (λ cwd. Fails-pure _ _))))))

  pub get-IsProcess : (pid : ℤ) → Returns (λ o. IsProcess pid o.value) (get self pid)
  unfolding get get_checked
  get-IsProcess pid =
      Returns-bind _ (IsText pid (text "stat")) _ _ (read-IsText pid (text "stat"))
        (λ stat_text held.
          Returns-bind _ (λ stat. parse_stat stat_text ≡ success stat) _ _
            (Returns-lift _ _ (λ stat h. h))
            (λ stat h.
              Returns-if _ (stat.pid == pid) _ _
                (λ t.
                  get_details-IsProcess pid stat stat_text held h ((int_eq_iff stat.pid pid).0 t))
                (λ _. Returns-fail _ _)))

  pub get-IsUnreadable : (pid : ℤ) → Fails (IsUnreadable pid) (get self pid)
  unfolding get get_checked
  get-IsUnreadable pid =
      Fails-bind _ (IsText pid (text "stat")) _ _ (read-IsText pid (text "stat"))
        (read-IsUnreadable pid (text "stat") (inl refl))
        (λ stat_text held.
          Fails-bind _ (λ stat. parse_stat stat_text ≡ success stat) _ _
            (Returns-lift _ _ (λ stat h. h)) (Fails-lift _ _ (λ e h. bad_stat stat_text e held h))
            (λ stat h.
              Fails-if _ (stat.pid == pid) _ _
                (λ _. get_details-IsUnreadable pid stat stat_text held h)
                (λ f. Fails-fail _ _ (
                  other_pid stat_text stat held h
                    (λ same. absurd (let is = (int_eq_iff stat.pid pid).1 same in cc))))))
