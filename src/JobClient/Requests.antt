-- ===== src/JobClient/Requests.antt =====
-- The requests of the typed client of Jobs, read by the conventions of the Kubernetes API: the verb,
-- the resource and the namespace, the name and the subresource, and what the query and the body
-- hold.
use test_concurrent_reconcil.Base.{
  ℕ, ◌*◌, ◌^◌, ◌≤◌, String, true, Option, none, some, List, [], ◌∷◌, ◌≡◌, refl, ◌&&◌, ◌==◌,
  string_eq, nat_eq, if◌then◌else◌, arith,
}
use test_concurrent_reconcil.JobClient.Typed.{
  ListOptions, Verb, get_verb, post_verb, put_verb, delete_verb, patch_verb, QueryParams, no_params,
  options, list_options, Body, no_body, job_body, options_body, bytes_body, RestRequest, Rest, Jobs,
  timeout_of, get, list, watch, create, update, update_job_status, delete_job, delete_collection,
  patch_job,
}

-- A call of a method of the client.
pub data JobCall (J O : Type 0) : Type 0 where
  get_call : String → O → JobCall J O
  list_call : ListOptions → JobCall J O
  watch_call : ListOptions → JobCall J O
  create_call : J → O → JobCall J O
  update_call : J → O → JobCall J O
  update_status_call : J → O → JobCall J O
  delete_call : String → O → JobCall J O
  delete_collection_call : O → ListOptions → JobCall J O
  patch_call : String → String → String → O → List String → JobCall J O

-- The timeout that a query asks for, in nanoseconds.
abbrev asked : Option ℕ → ℕ
asked none = 0
asked (some seconds) = seconds * 10 ^ 9

abbrev pub asked_by : {O : Type 0} → QueryParams O → ℕ
asked_by (list_options opts) = asked opts.timeout_seconds
asked_by _ = 0

module _ {J O : Type 0} (job_name : J → String) where
  -- A query with `watch` set is a watch. The name of an update is that of the Job in its body.
  abbrev pub read_call :
      Verb → Option String → List String → QueryParams O → Body J O → Option (JobCall J O)
  read_call get_verb (some name) [] (options o) no_body = some (get_call name o)
  read_call get_verb none [] (list_options l) no_body =
      some (if l.watch then watch_call l else list_call l)
  read_call post_verb none [] (options o) (job_body j) = some (create_call j o)
  read_call put_verb (some name) [] (options o) (job_body j) =
      if name == job_name j then some (update_call j o) else none
  read_call put_verb (some name) (sub ∷ []) (options o) (job_body j) =
      if name == job_name j && sub == "status" then some (update_status_call j o) else none
  read_call delete_verb (some name) [] no_params (options_body o) = some (delete_call name o)
  read_call delete_verb none [] (list_options l) (options_body o) =
      some (delete_collection_call o l)
  read_call (patch_verb pt) (some name) subs (options o) (bytes_body bytes) =
      some (patch_call name pt bytes o subs)
  read_call _ _ _ _ _ = none

  -- A request on Jobs of the namespace, with the timeout that its query asks for.
  abbrev pub read_request : String → RestRequest J O → Option (JobCall J O)
  read_request ns q =
      if q.resource == "jobs" && (q.namespace == ns && q.timeout == asked_by q.versioned_params)
      then read_call q.verb q.name q.sub_resource q.versioned_params q.body
      else none

-- The call that is meant: `Watch` sets `watch`, and `List` of options that set it is a watch.
abbrev pub meant : {J O : Type 0} → JobCall J O → JobCall J O
meant (list_call l) = if l.watch then watch_call l else list_call l
meant (watch_call l) = watch_call (record l { watch = true })
meant c = c

-- The seconds that are asked for fit into a duration of 64 bits.
abbrev Within : Option ℕ → Type 0
Within none = Unit
Within (some seconds) = seconds ≤ 9223372036

abbrev pub Fits : {J O : Type 0} → JobCall J O → Type 0
Fits (list_call l) = Within l.timeout_seconds
Fits (watch_call l) = Within l.timeout_seconds
Fits (delete_collection_call o l) = Within l.timeout_seconds
Fits _ = Unit

timeout_of-Within : (o : Option ℕ) → Within o → timeout_of o ≡ asked o
unfolding timeout_of
timeout_of-Within none h = refl
timeout_of-Within (some seconds) h = omega (arith, h)

same : (s : String) → (s == s) ≡ true
same s = (string_eq.equals_iff s s).1 refl

module _ {J L W O : Type 0} (job_name : J → String) (job : J) (found : L) (watched : W) where
  -- An API server that keeps the requests, the newest first, and always answers the same.
  abbrev pub keeping : Rest (List (RestRequest J O)) J L W O
  keeping = record {
    into_job = λ q log. ((job, none), q ∷ log);
    into_list = λ q log. ((found, none), q ∷ log);
    error = λ q log. (none, q ∷ log);
    watching = λ q log. ((watched, none), q ∷ log);
  }

  -- The requests after a call.
  abbrev pub after_call : String → JobCall J O → List (RestRequest J O) → List (RestRequest J O)
  after_call ns call log =
      let c : Jobs (List (RestRequest J O)) J L W O = record { client = keeping; ns = ns } in
      elim call [
        | get_call name o ↦ (get job_name c name o log).1
        | list_call l ↦ (list job_name c l log).1
        | watch_call l ↦ (watch job_name c l log).1
        | create_call j o ↦ (create job_name c j o log).1
        | update_call j o ↦ (update job_name c j o log).1
        | update_status_call j o ↦ (update_job_status job_name c j o log).1
        | delete_call name o ↦ (delete_job job_name c name o log).1
        | delete_collection_call o l ↦ (delete_collection job_name c o l log).1
        | patch_call name pt bytes o subs ↦ (patch_job job_name c name pt bytes o subs log).1
      ]

  -- Each method of the typed client, where the timeout that it is given fits into a duration,
  -- builds one request, from which the call can be read back: it is on the Jobs of the client's
  -- namespace, has the timeout that its query asks for, and the verb, the name, the subresource,
  -- the query and the body that belong to the call.
  pub read_request-after_call :
      (ns : String) (call : JobCall J O) (log : List (RestRequest J O))
      → Fits call
      → (q : RestRequest J O) × (after_call ns call log ≡ q ∷ log)
        × (read_request job_name ns q ≡ some (meant call))
  read_request-after_call ns (get_call name o) log h = (_, refl, ground (arith, same ns))
  read_request-after_call ns (list_call l) log h =
      (_, refl, ground (arith, same ns, timeout_of-Within l.timeout_seconds h))
  read_request-after_call ns (watch_call l) log h =
      (_, refl, ground (arith, same ns, timeout_of-Within l.timeout_seconds h))
  read_request-after_call ns (create_call j o) log h = (_, refl, ground (arith, same ns))
  read_request-after_call ns (update_call j o) log h =
      (_, refl, ground (arith, same ns, same (job_name j)))
  read_request-after_call ns (update_status_call j o) log h =
      (_, refl, ground (arith, same ns, same (job_name j)))
  read_request-after_call ns (delete_call name o) log h = (_, refl, ground (arith, same ns))
  read_request-after_call ns (delete_collection_call o l) log h =
      (_, refl, ground (arith, same ns, timeout_of-Within l.timeout_seconds h))
  read_request-after_call ns (patch_call name pt bytes o subs) log h =
      (_, refl, ground (arith, same ns))
