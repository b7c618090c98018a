-- ===== src/Connector/Establish/Verdict.antt =====
-- include/tarantool_connector/tarantool_connector.hpp: what the answer to the request of
-- `async_auth` makes of `Connector::connect`.
use tntpp.Common.{
  ℕ, ◌-◌, ◌≡◌, ◌≢◌, refl, ap, ◌∙◌, Bool, true, false, not, ◌&&◌, Option, none, some, List, [], ◌∷◌,
  ◌++◌, map, arith, leb, ltb, ◌==◌, if◌then◌else◌, Bool-cases, Option-cases, inl, inr,
}
use tntpp.Errc.{ok, tarantool, broken_pipe}
use tntpp.Iproto.Types.{request_number}
use tntpp.Iproto.Errors.Code.{error_code}
use tntpp.Iproto.Errors.Cast.{int_to_tarantool_error, error_code-int_to_tarantool_error}
use tntpp.Iproto.Header.{MessageHeader, is_error}
use tntpp.Iproto.Header
use tntpp.Logger.{LogLevel, info, is_handled}
use tntpp.Msgpack.{Msgpack}
use tntpp.Response
use tntpp.Response.{get_error_string}
use tntpp.Framing.{IprotoFrame}
use tntpp.Connection.{Connection, send_data}
use tntpp.Connector.{
  connected, Internal, handler, destroy, new_internal, insert, remove, generate_id, send_request,
  register, on_message, reset, finish_reset, call_all,
}
use tntpp.Connector.Asks.{Ask, answers, breaks, serve, serve_all}
use tntpp.Connector.Loop.{async_auth}
use tntpp.Connector.Establish.{
  is_failure, log_refusal, auth_error, Established, hands_over, refuses, terminates, outcome_of,
  finish_connect, on_checked, on_answer, after_start, establish,
}

-- The number of the error that a response says.
abbrev pub error_number : MessageHeader → ℕ
error_number h = h.request_type - 0x8000

-- A response that says an error with a number from 1 to 280.
abbrev pub refusal : MessageHeader → Bool
refusal h = is_error h && (ltb 0 (error_number h) && leb (error_number h) 280)

-- Whether a text was read.
abbrev pub is_read : Option (List ℕ) → Bool
is_read none = false
is_read (some s) = true

-- An error response of which the text is logged and cannot be read.
abbrev pub unreadable : Msgpack → Option LogLevel → (IprotoFrame → List ℕ) → IprotoFrame → Bool
unreadable c level shown f =
    is_error f.header
    && (is_handled level info && not (is_read (get_error_string c f.header (shown f))))

-- None of the messages answers the first request.
abbrev pub Others : List IprotoFrame → Type 0
Others [] = Unit
Others (f ∷ fs) = (f.header.sync ≢ 0) × Others fs

known_error : (n : ℕ) → not (error_code (int_to_tarantool_error n) == 0) ≡ (ltb 0 n && leb n 280)
known_error n = rw (error_code-int_to_tarantool_error n) (ground arith)

module _ {Data : Type 0} where
  -- The connector that waits for the answer, and the one that got it.
  abbrev pub asking : Connection Data → Data → ℕ → ℕ → Internal Data
  asking conn d self version = record {
    state = connected;
    schema_version = version;
    request_id = 1;
    requests = (0, handler self) ∷ [];
    conn = send_data conn d;
    completions = [];
  }

  abbrev pub answered : Connection Data → Data → ℕ → IprotoFrame → Internal Data
  answered conn d self f = record (asking conn d self f.header.schema_version) {
    requests = [];
    completions = record { caller = self; outcome = ok f } ∷ [];
  }

  async_auth-asking :
      (conn : Connection Data) (request : ℕ → Data) (self : ℕ)
      → (async_auth (new_internal conn) (some request) self).0 ≡ asking conn (request 0) self 0
  unfolding async_auth new_internal generate_id send_request register insert
  async_auth-asking conn request self = refl

  on_message-other :
      (conn : Connection Data) (d : Data) (self version : ℕ) (f : IprotoFrame)
      → f.header.sync ≢ 0
      → on_message (asking conn d self version) f ≡ asking conn d self f.header.schema_version
  unfolding on_message
  on_message-other conn d self version f ne =
      let e : (0 == f.header.sync) ≡ false = ground arith in rw (e, on_message) refl

  serve_all-Others :
      (conn : Connection Data) (d : Data) (self version : ℕ) (fs : List IprotoFrame)
      (es : List (Ask Data))
      → Others fs
      → (v : ℕ) × (serve_all (asking conn d self version) (map answers fs ++ es)
          ≡ serve_all (asking conn d self v) es)
  unfolding serve_all serve
  serve_all-Others conn d self version [] es o = (version, refl)
  serve_all-Others conn d self version (f ∷ fs) es (ne, o) =
      let (v, e) = serve_all-Others conn d self f.header.schema_version fs es o in
      (
        v,
        ap (λ s. serve_all s (map answers fs ++ es)) (on_message-other conn d self version f ne)
            ∙ e,
      )

  on_message-answered :
      (conn : Connection Data) (d : Data) (self version : ℕ) (f : IprotoFrame)
      → f.header.sync ≡ 0
      → on_message (asking conn d self version) f ≡ answered conn d self f
  unfolding on_message remove
  on_message-answered conn d self version f e = rw e refl

  -- An error with a number from 1 to 280 refuses the connection, any other response hands it over.
  abbrev pub judged : Internal Data → IprotoFrame → Established Data
  judged s f =
      if refusal f.header
      then refuses (tarantool (int_to_tarantool_error (error_number f.header))) (some (destroy s))
      else hands_over s

module _ (c : Msgpack) (level : Option LogLevel) (shown : IprotoFrame → List ℕ) where
  log_refusal-unreadable :
      (f : IprotoFrame)
      → is_error f.header ≡ true
      → log_refusal c level shown f ≡ (if unreadable c level shown f then none else some tt)
  unfolding log_refusal
  log_refusal-unreadable f e = elim (Bool-cases (is_handled level info)) [
    | inl h ↦ elim (Option-cases (get_error_string c f.header (shown f))) [
      | inl n ↦ rw (e, h, n, log_refusal) refl
      | inr (s, n) ↦ rw (e, h, n, log_refusal) refl
    ]
    | inr h ↦ rw (e, h, log_refusal) refl
  ]

module _ {Data : Type 0} (c : Msgpack) (level : Option LogLevel)
    (shown : IprotoFrame → List ℕ) where
  on_checked-judged :
      (s : Internal Data) (f : IprotoFrame)
      → on_checked s (auth_error c level shown f)
        ≡ (if unreadable c level shown f then terminates else judged s f)
  unfolding auth_error on_checked finish_connect Response.get_error_code Header.get_error_code
      is_failure request_number
  on_checked-judged s f = elim (Bool-cases (is_error f.header)) [
    | inl e ↦ elim (Bool-cases (unreadable c level shown f)) [
      | inl u ↦ rw (u, e, auth_error, log_refusal-unreadable c level shown f e, u) refl
      | inr u ↦
          rw
            (
              u,
              e,
              auth_error,
              log_refusal-unreadable c level shown f e,
              u,
              known_error (error_number f.header),
            )
            refl
    ]
    | inr e ↦ rw (e, auth_error) refl
  ]

  -- If connecting succeeded, there are credentials, and no message before it answers the request
  -- of `async_auth`, the first answer decides. If it is an error, the logger takes `Info`, and
  -- `get_error_string` cannot read the text off its body, the program is terminated. Otherwise an
  -- error with a number from 1 to 280 refuses the connection with that error and destroys the
  -- connector; any other response, an error with another number among them, hands over a connected
  -- connector with no request under way.
  pub establish-answered :
      (conn : Connection Data) (request : ℕ → Data) (self : ℕ) (fs : List IprotoFrame)
      (f : IprotoFrame)
      → Others fs
      → f.header.sync ≡ 0
      → establish c level shown conn (ok tt) (some request) self (map answers fs ++ answers f ∷ [])
        ≡ (if unreadable c level shown f
            then terminates
            else judged (answered conn (request 0) self f) f)
  unfolding establish after_start async_auth new_internal generate_id send_request register insert
      serve_all serve outcome_of on_answer
  establish-answered conn request self fs f o e =
      let (v, p) = serve_all-Others conn (request 0) self 0 fs (answers f ∷ []) o in
      let q = p ∙ on_message-answered conn (request 0) self v f e in
      ap (λ s. on_answer c level shown s (outcome_of self s.completions)) q
      ∙ (let same : (self == self) ≡ true = ground arith in
          rw (same, on_answer, outcome_of) (on_checked-judged (answered conn (request 0) self f) f))

  -- If the connection breaks before the answer, `connect` ends with `broken_pipe` and without a
  -- connector.
  pub establish-lost :
      (conn : Connection Data) (request : ℕ → Data) (self : ℕ) (fs : List IprotoFrame)
      → Others fs
      → (s : Internal Data) × (establish c level shown conn
            (ok tt)
            (some request)
            self
            (map answers fs ++ breaks ∷ [])
          ≡ refuses broken_pipe (some (destroy s)))
  unfolding establish after_start async_auth new_internal generate_id send_request register insert
      serve_all serve outcome_of on_answer finish_connect is_failure reset finish_reset call_all
  establish-lost conn request self fs o =
      let (v, p) = serve_all-Others conn (request 0) self 0 fs (breaks ∷ []) o in
      let same : (self == self) ≡ true = ground arith in
      (
        serve_all (asking conn (request 0) self v) (breaks ∷ []),
        ap (λ s. on_answer c level shown s (outcome_of self s.completions)) p ∙ rw same refl,
      )
