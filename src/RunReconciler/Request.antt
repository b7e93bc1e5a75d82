-- ===== src/RunReconciler/Request.antt =====
-- `sendRequest` and `generateRunscope` of job.go. No function of the program calls `sendRequest`;
-- `reconcile` sends the fake request.
use Prim.Native.String.{◌++◌}
use text.Mathlib.TextLemmas.{nil-append, cons-append}
use test_concurrent_reconcil.Base.{
  ℕ, String, Option, none, some, List, [], ◌∷◌, ◌≡◌, refl, if◌then◌else◌, ◌==◌, string_eq, nat_eq,
  ◌*◌, Bool-cases, inl, inr, ◌∙◌, ap,
}
use test_concurrent_reconcil.Kube.{Error, Returns, M, pure, ◌>>=◌}
use test_concurrent_reconcil.RunReconciler.Types.{second}
use test_concurrent_reconcil.RunReconciler.Invoke.{InvokeParams}

-- The first byte of the texts below is the character `&`.
unfoldable pub drop_ampersand : String → String
drop_ampersand String.[] = String.[]
drop_ampersand (String.◌∷◌ c s) = if String.◌∷◌ c String.[] == "&" then s else String.◌∷◌ c s

abbrev pub add_part : String → String → String → String
add_part scope name part = if part == "" then scope else scope ++ name ++ part

unfoldable pub generate_runscope : InvokeParams → String
generate_runscope params =
    drop_ampersand (add_part (add_part "" "&project_id=" params.project) "&space_id=" params.space)

-- The scope said in one line: the given parameters, each with its name, joined by `&`.
abbrev pub join : List String → String
join [] = ""
join (part ∷ []) = part
join (part ∷ rest) = part ++ "&" ++ join rest

abbrev pub named : String → String → List String → List String
named name part rest = if part == "" then rest else (name ++ part) ∷ rest

-- A literal that begins with `&`, in front of a text.
ampersand-append : (rest s : String) → String.◌∷◌ "&" rest ++ s ≡ String.◌∷◌ "&" (rest ++ s)
ampersand-append rest s = cons-append "&" rest s

project-append : (p : String) → "&project_id=" ++ p ≡ String.◌∷◌ "&" ("project_id=" ++ p)
project-append p = ampersand-append "project_id=" p

space-append : (p : String) → "&space_id=" ++ p ≡ String.◌∷◌ "&" ("space_id=" ++ p)
space-append p = ampersand-append "space_id=" p

single-append : (p : String) → "&" ++ p ≡ String.◌∷◌ "&" p
single-append p = ampersand-append "" p ∙ ap (String.◌∷◌ "&") (nil-append p)

drop_ampersand-cons : (s : String) → drop_ampersand (String.◌∷◌ "&" s) ≡ s
unfolding drop_ampersand
drop_ampersand-cons s = refl

ruleset scope_laws =
    (nil-append, project-append, space-append, single-append, ampersand-append, drop_ampersand-cons)

drop_ampersand-nil : drop_ampersand "" ≡ ""
unfolding drop_ampersand
drop_ampersand-nil = refl

only_space : (s : String) → drop_ampersand ("" ++ ("&space_id=" ++ s)) ≡ "space_id=" ++ s
only_space s = simp scope_laws

only_project : (p : String) → drop_ampersand ("" ++ ("&project_id=" ++ p)) ≡ "project_id=" ++ p
only_project p = simp scope_laws

project_and_space :
    (p s : String)
    → drop_ampersand (("" ++ ("&project_id=" ++ p)) ++ ("&space_id=" ++ s))
      ≡ ("project_id=" ++ p) ++ ("&" ++ ("space_id=" ++ s))
project_and_space p s = simp scope_laws

-- `generateRunscope` gives the parameters that are not empty, project before space, with one `&`
-- between them and none in front or behind.
generate_runscope_lem :
    (params : InvokeParams)
    → generate_runscope params
      ≡ join (named "project_id=" params.project (named "space_id=" params.space []))
generate_runscope_lem params = elim (Bool-cases (params.project == "")) [
  | inl no_project ↦ elim (Bool-cases (params.space == "")) [
    | inl no_space ↦ unfold generate_runscope in simp (no_project, no_space) drop_ampersand-nil
    | inr space ↦ unfold generate_runscope in simp (no_project, space) (only_space params.space)
  ]
  | inr project ↦ elim (Bool-cases (params.space == "")) [
    | inl no_space ↦
        unfold generate_runscope in simp (project, no_space) (only_project params.project)
    | inr space ↦
        unfold generate_runscope in
        simp (project, space) (project_and_space params.project params.space)
  ]
]

pub record Request : Type 0 where
  pub method : String
  pub url : String
  pub body : String
  pub content_type : String
  pub authorization : String
  pub timeout : ℕ

pub record Response : Type 0 where
  pub status_code : ℕ
  pub body : String

-- net/http, io/ioutil and encoding/json: whether a method and a URL make a request, the sending of
-- one, the reading of an answer's body, and the decoding of `metadata.asset_id`.
pub record Http (S : Type 0) : Type 0 where
  pub new_request : String → String → Option Error
  pub send : Request → M S (Returns Response)
  pub read_all : Response → Returns String
  pub unmarshal : String → Returns String
  pub bad_status : Response → Error

abbrev pub base_url : String
base_url = "https://api.dataplatform.dev.cloud.ibm.com"

abbrev pub request_for : InvokeParams → Request
request_for params = record {
  method = "POST";
  url = base_url ++ "/v2/jobs/" ++ params.job ++ "/runs?" ++ generate_runscope params;
  body = "{\"job_run\":{}}";
  content_type = "application/json";
  authorization = "Bearer " ++ params.token;
  timeout = 10 * second;
}

abbrev pub failing : Option Error → Returns String → Returns String
failing none answer = answer
failing (some err) answer = ("", some err)

module _ {S : Type 0} where
  -- The answer to a request that was sent.
  abbrev pub answer_of : Http S → Returns Response → Returns String
  answer_of http (resp, some err) = ("", some err)
  answer_of http (resp, none) =
      if resp.status_code == 201
      then (let (body, read_err) = http.read_all resp in
          let (id, parse_err) = http.unmarshal body in
          failing read_err (failing parse_err (id, none)))
      else ("", some (http.bad_status resp))

  unfoldable pub send_request : Http S → InvokeParams → M S (Returns String)
  send_request http params =
      let request = request_for params in
      elim (http.new_request request.method request.url) [
        | some err ↦ pure ("", some err)
        | none ↦ do answered ← http.send request; pure (answer_of http answered)
      ]
