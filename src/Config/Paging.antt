-- ===== src/Config/Paging.antt =====
-- A client that reads the whole history, page by page, from a service that keeps it in memory.
use open_rgs_go.Prelude.{
  ℕ, zero, suc, ◌+◌, ◌≤◌, ◌<◌, String, ◌≡◌, ◌≢◌, ap, ◌∙◌, Bool-cases, inl, inr, ltb→lt, Option,
  none, some, List, ◌++◌, arith, eq_iff, ltb, ◌=ˢ◌, if◌then◌else◌,
}
use open_rgs_go.Prelude.Int64.{two63}
use open_rgs_go.Prelude.Decimal.{format_int, format_int-shown}
use open_rgs_go.Prelude.Pages.{length, drop, slice, page, page-next, page-last, slice-drop}
use open_rgs_go.Proto.{code_ok}
use open_rgs_go.Actor.{TokenActor, resolve_actor}
use open_rgs_go.Journal.{refuse_with}
use open_rgs_go.Config.State.{ConfigChange, HistoryRequest, Config, ConfigEnv}
use open_rgs_go.Config.Methods.{authorize, page_start, page_limit}
use open_rgs_go.Config.Listings.{
  history_of, history_page, history_body, history_answer, list_config_history,
}

module _ (env : ConfigEnv) (now : ℕ) (ctx : Option TokenActor) where
  -- The changes of all pages from the request's token on; none where the fuel is used up or a call
  -- does not answer.
  unfoldable pub read_history : ℕ → HistoryRequest → Config env.Db → Option (List ConfigChange)
  unfolding list_config_history
  read_history zero req s = none
  read_history (suc fuel) req s = elim (list_config_history env now ctx (some req) s).0 [
    | none ↦ none
    | some r ↦
        let s' = (list_config_history env now ctx (some req) s).1 in
        let rest = read_history fuel (record req { page_token = r.next_page_token }) s' in
        if r.next_page_token =ˢ ""
        then some r.changes
        else elim rest [ none ↦ none | some changes ↦ some (r.changes ++ changes) ]
  ]

  module _ (s : Config env.Db) (offline : s.journal.db ≡ none)
      (parses : (n : ℕ) → n < two63 → env.atoi (format_int n) ≡ some n) where
    abbrev whole : HistoryRequest → List ConfigChange
    whole req = history_of req.config_namespace_filter s.changes s.change_order

    page_limit-positive : (n : ℕ) → 0 < page_limit env n
    unfolding page_limit
    page_limit-positive n = ground arith

    page_start-format_int : (n : ℕ) → n < two63 → page_start env (format_int n) ≡ n
    unfolding page_start
    page_start-format_int n h =
        ground (arith, parses n h, h, format_int-shown n, eq_iff (format_int n) "")

    -- One call answers with a page, and changes nothing.
    list_config_history-page :
        (req : HistoryRequest)
        → authorize (resolve_actor env.normalize ctx req.meta) ≡ none
        → (items : List ConfigChange) (token : String)
        → page (whole req) (page_start env req.page_token) (page_limit env req.page_size)
          ≡ (items, token)
        → list_config_history env now ctx (some req) s
          ≡ (some (history_answer env now ctx req.meta code_ok "" items token), s)
    unfolding list_config_history history_body refuse_with history_page
    list_config_history-page req allowed items token e = ground (arith, allowed, offline, e)

    read-last :
        (fuel : ℕ) (req : HistoryRequest) (items : List ConfigChange)
        → list_config_history env now ctx (some req) s
          ≡ (some (history_answer env now ctx req.meta code_ok "" items ""), s)
        → read_history (suc fuel) req s ≡ some items
    unfolding read_history
    read-last fuel req items call = ground (arith, call)

    read-next :
        (fuel : ℕ) (req : HistoryRequest) (items rest : List ConfigChange) (token : String)
        → token ≢ ""
        → list_config_history env now ctx (some req) s
          ≡ (some (history_answer env now ctx req.meta code_ok "" items token), s)
        → read_history fuel (record req { page_token = token }) s ≡ some rest
        → read_history (suc fuel) req s ≡ some (items ++ rest)
    unfolding read_history
    read-next fuel req items rest token shown call following =
        ground (arith, call, following, shown, eq_iff token "")

    read_history-drop :
        (fuel : ℕ) (req : HistoryRequest) (start : ℕ)
        → authorize (resolve_actor env.normalize ctx req.meta) ≡ none
        → page_start env req.page_token ≡ start
        → length (whole req) < two63
        → start ≤ length (whole req)
        → length (whole req) < start + fuel
        → read_history fuel req s ≡ some (drop start (whole req))
    read_history-drop zero req start allowed from small low enough = absurd (omega arith)
    read_history-drop (suc fuel) req start allowed from small low enough =
        let xs = whole req in
        let size = page_limit env req.page_size in
        let positive = page_limit-positive req.page_size in
        let to = start + size in
        elim (Bool-cases (ltb to (length xs))) [
          | inl more ↦
              let next = format_int to in
              let items = slice start to xs in
              let call = list_config_history-page req allowed items next (
                ap (λ k. page xs k size) from
                ∙ page-next xs start size (ltb→lt to (length xs) more)) in
              let rest =
                read_history-drop fuel (record req { page_token = next }) to allowed
                  (page_start-format_int to (ground (arith, more, small))) small
                  (ground (arith, more)) (ground (arith, positive, enough)) in
              read-next fuel req items (drop to xs) next (format_int-shown to) call rest
              ∙ ap some (slice-drop start to xs (omega arith))
          | inr last ↦ read-last fuel req (drop start xs) (
              list_config_history-page req allowed (drop start xs) "" (
                ap (λ k. page xs k size) from ∙ page-last xs start size low (ground (arith, last))))
        ]

    -- Where strconv.Atoi reads back the decimals of the tokens, and for an authorized caller: from the
    -- request without a token, following the tokens of the answers ends after at most as many calls as
    -- there are changes, and one, and gives every change that the filter lets through, once and in the
    -- order of the history, whatever the size of the pages.
    pub read_history-whole :
        (fuel : ℕ) (req : HistoryRequest)
        → authorize (resolve_actor env.normalize ctx req.meta) ≡ none
        → req.page_token ≡ ""
        → length (whole req) < two63
        → length (whole req) < fuel
        → read_history fuel req s ≡ some (whole req)
    unfolding page_start drop
    read_history-whole fuel req allowed first small enough =
        read_history-drop fuel req 0 allowed (ground (arith, first, eq_iff req.page_token "")) small
          (omega arith) (omega (arith, enough))
