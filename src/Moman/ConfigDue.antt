-- ===== src/Moman/ConfigDue.antt =====
-- To whom a configuration is due, and whom it is sent to.
use mathlib.Core.List.{Memᴰ}
use mathlib.Core.List.Memᴰ
use kekmonitors_cpp.Prelude.{
  String, ◌≡◌, ◌⊎◌, inl, inr, refl, sym, Bool, true, false, some, List, [], ◌∷◌, arith, find,
  is_some, if◌then◌else◌, Option-cases, subst, ap,
}
use kekmonitors_cpp.Core.Codes.{CommandType, MonitorOrScraper, monitor, scraper}
use kekmonitors_cpp.Msg.Cmd.{Cmd}
use kekmonitors_cpp.Moman.State.{Sending, StoredObject, System, stored}
use kekmonitors_cpp.Moman.Configs.{is_sent_to, send_cmd_if_process, send_configs}

kind_cases : (m : MonitorOrScraper) → (m ≡ monitor) ⊎ (m ≡ scraper)
kind_cases monitor = inl refl
kind_cases scraper = inr refl

module _ {Json : Type 0} where
  -- The stored object of the kind and class name runs, and has the socket that the command goes to.
  abbrev pub IsRecipient : Sending Json → System Json → Type 0
  IsRecipient x s =
      (obj : StoredObject) × (find x.class_name (stored x.kind s) ≡ some obj)
      × (is_some obj.process ≡ true)
      × (obj.endpoint ≡ some x.endpoint)

  -- The file has the class name with the payload of the command, the code sends to the kind, and the
  -- process is a recipient.
  abbrev pub IsCovered :
      String → CommandType → List (String × Json) → System Json → Sending Json → Type 0
  IsCovered sub_dir code items s x =
      Memᴰ (x.class_name, x.cmd.payload) items
      × (x.cmd.cmd ≡ code)
      × (is_sent_to x.kind sub_dir ≡ true)
      × IsRecipient x s

  -- Either the process is no recipient and nothing is sent, or one command is.
  send_cases :
      (m : MonitorOrScraper) (cmd : Cmd Json) (k : String) (s : System Json)
      → (send_cmd_if_process m cmd k s ≡ [])
        ⊎ ((x : Sending Json) × (send_cmd_if_process m cmd k s ≡ x ∷ [])
            × (x.kind ≡ m)
            × (x.cmd ≡ cmd)
            × (x.class_name ≡ k)
            × IsRecipient x s)
  unfolding send_cmd_if_process
  send_cases m cmd k s = elim (Option-cases (find k (stored m s))) [
    | inl e ↦ inl (rw (e, send_cmd_if_process) refl)
    | inr (obj, e) ↦ elim (Option-cases obj.process) [
      | inl stopped ↦ inl (rw (e, send_cmd_if_process) (rw stopped refl))
      | inr (p, runs) ↦ elim (Option-cases obj.endpoint) [
        | inl silent ↦ inl (rw (e, send_cmd_if_process) (rw runs (rw silent refl)))
        | inr (ep, at) ↦ inr (
          record { kind = m; class_name = k; endpoint = ep; cmd = cmd },
          rw (e, send_cmd_if_process) (rw runs (rw at refl)),
          refl,
          refl,
          refl,
          (obj, e, ap is_some runs, at),
        )
      ]
    ]
  ]

  send_cmd_if_process-to :
      (m : MonitorOrScraper) (cmd : Cmd Json) (k : String) (s : System Json) (x : Sending Json)
      → Memᴰ x (send_cmd_if_process m cmd k s)
      → (x.kind ≡ m) × (x.cmd ≡ cmd) × (x.class_name ≡ k) × IsRecipient x s
  send_cmd_if_process-to m cmd k s x h = elim (send_cases m cmd k s) [
    | inl e ↦ absurd (Memᴰ.not-nil (subst (Memᴰ x) e h))
    | inr (y, only, kind, cmd_is, name, recipient) ↦
        let same = Memᴰ.eq_of_singleton (subst (Memᴰ x) only h) in
        subst
          (λ (z : Sending Json).
            (z.kind ≡ m) × (z.cmd ≡ cmd) × (z.class_name ≡ k) × IsRecipient z s)
          (sym same) (kind, cmd_is, name, recipient)
  ]

  send_cmd_if_process-from :
      (x : Sending Json) (s : System Json)
      → IsRecipient x s
      → Memᴰ x (send_cmd_if_process x.kind x.cmd x.class_name s)
  unfolding send_cmd_if_process
  send_cmd_if_process-from x s (obj, e, runs, at) = elim (Option-cases obj.process) [
    | inl stopped ↦ absurd (ground (arith, runs, stopped))
    | inr (p, has) ↦ rw (e, send_cmd_if_process) (rw has (rw at (Memᴰ.head refl)))
  ]

  mem-if :
      (b : Bool) (x : Sending Json) (l : List (Sending Json))
      → Memᴰ x (if b then l else [])
      → (b ≡ true) × Memᴰ x l
  mem-if true x l h = (refl, h)
  mem-if false x l h = absurd (Memᴰ.not-nil h)

  -- What one entry of the file sends to the processes of a kind.
  IsCovered-entry :
      (m : MonitorOrScraper) (sub_dir : String) (code : CommandType) (k : String) (config : Json)
      (items : List (String × Json)) (s : System Json) (x : Sending Json)
      → Memᴰ x (
          if is_sent_to m sub_dir
          then send_cmd_if_process m (record { cmd = code; payload = config }) k s
          else [])
      → IsCovered sub_dir code ((k, config) ∷ items) s x
  IsCovered-entry m sub_dir code k config items s x h =
      let (allowed, sent) = mem-if (is_sent_to m sub_dir) x _ h in
      let (kind, cmd, name, recipient) = send_cmd_if_process-to m _ k s x sent in
      (
        Memᴰ.head (rw (name, ap (λ (c : Cmd Json). c.payload) cmd) refl),
        ap (λ (c : Cmd Json). c.cmd) cmd,
        subst (λ (n : MonitorOrScraper). is_sent_to n sub_dir ≡ true) (sym kind) allowed,
        recipient,
      )

  pub send_configs-to :
      (sub_dir : String) (code : CommandType) (items : List (String × Json)) (s : System Json)
      (x : Sending Json)
      → Memᴰ x (send_configs sub_dir code items s)
      → IsCovered sub_dir code items s x
  unfolding send_configs
  send_configs-to sub_dir code [] s x h = absurd (Memᴰ.not-nil h)
  send_configs-to sub_dir code ((k, config) ∷ items) s x h = elim (Memᴰ.append_cases _ h) [
    | inl first ↦ IsCovered-entry monitor sub_dir code k config items s x first
    | inr others ↦ elim (Memᴰ.append_cases _ others) [
      | inl second ↦ IsCovered-entry scraper sub_dir code k config items s x second
      | inr rest ↦
          let (listed, is, allowed, recipient) = send_configs-to sub_dir code items s x rest in
          (Memᴰ.tail listed, is, allowed, recipient)
    ]
  ]

  due_is_sent :
      (x : Sending Json) (m : MonitorOrScraper) (cmd : Cmd Json) (k sub_dir : String)
      (s : System Json)
      → x.kind ≡ m
      → x.cmd ≡ cmd
      → x.class_name ≡ k
      → is_sent_to x.kind sub_dir ≡ true
      → IsRecipient x s
      → Memᴰ x (if is_sent_to m sub_dir then send_cmd_if_process m cmd k s else [])
  due_is_sent x m cmd k sub_dir s p q r allowed recipient =
      let sent = send_cmd_if_process-from x s recipient in
      let named = subst (λ n. Memᴰ x (send_cmd_if_process x.kind x.cmd n s)) r sent in
      let commanded = subst (λ c. Memᴰ x (send_cmd_if_process x.kind c k s)) q named in
      let passed : Memᴰ x
          (if is_sent_to x.kind sub_dir then send_cmd_if_process x.kind cmd k s else []) =
        rw allowed commanded in
      subst (λ n. Memᴰ x (if is_sent_to n sub_dir then send_cmd_if_process n cmd k s else [])) p
        passed

  pub send_configs-from :
      (sub_dir : String) (code : CommandType) (items : List (String × Json)) (s : System Json)
      (x : Sending Json)
      → IsCovered sub_dir code items s x
      → Memᴰ x (send_configs sub_dir code items s)
  unfolding send_configs
  send_configs-from sub_dir code [] s x (listed, is, allowed, recipient) =
      absurd (Memᴰ.not-nil listed)
  send_configs-from sub_dir code ((k, config) ∷ items) s x
        (Memᴰ.tail listed, is, allowed, recipient) =
      Memᴰ.append_right _ (
        Memᴰ.append_right _
          (send_configs-from sub_dir code items s x (listed, is, allowed, recipient)))
  send_configs-from sub_dir code ((k, config) ∷ items) s x (Memᴰ.head e, is, allowed, recipient) =
      let cmd : x.cmd ≡ record { cmd = code; payload = config } =
        rw (sym is, sym (ap (λ (t : String × Json). t.1) e)) refl in
      let name = ap (λ (t : String × Json). t.0) e in
      elim (kind_cases x.kind) [
        | inl m ↦
            Memᴰ.append_left _ (due_is_sent x monitor _ k sub_dir s m cmd name allowed recipient)
        | inr m ↦
            Memᴰ.append_right _ (
              Memᴰ.append_left _ (due_is_sent x scraper _ k sub_dir s m cmd name allowed recipient))
      ]
