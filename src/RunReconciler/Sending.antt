-- ===== src/RunReconciler/Sending.antt =====
-- When `sendRequest` succeeds.
use test_concurrent_reconcil.Base.{
  String, Option, none, some, ◌≡◌, ◌↔◌, refl, ◌==◌, nat_eq, Bool-cases, inl, inr, arith,
}
use test_concurrent_reconcil.Kube.{Error, Returns, M, pure, ◌>>=◌}
use test_concurrent_reconcil.RunReconciler.Invoke.{InvokeParams}
use test_concurrent_reconcil.RunReconciler.Request.{
  Response, Http, request_for, failing, answer_of, send_request,
}

module _ {S : Type 0} (http : Http S) where
  -- An answer with status 201 whose body was read and decoded into the id.
  pub record IsCreated (answer : Returns Response) (id : String) : Type 0 where
    pub arrived : answer.1 ≡ none
    pub created : answer.0.status_code ≡ 201
    pub was_read : (http.read_all answer.0).1 ≡ none
    pub decoded : http.unmarshal (http.read_all answer.0).0 ≡ (id, none)

  failing-none :
      (err : Option Error) (answer : Returns String) (id : String)
      → failing err answer ≡ (id, none)
      → (err ≡ none) × (answer ≡ (id, none))
  failing-none none answer id h = (refl, h)
  failing-none (some e) answer id h = cc

  answer_of-IsCreated :
      (answer : Returns Response) (id : String)
      → answer_of http answer ≡ (id, none)
      → IsCreated answer id
  answer_of-IsCreated (resp, some err) id h = cc
  answer_of-IsCreated (resp, none) id h = elim (Bool-cases (resp.status_code == 201)) [
    | inl yes_created ↦
        let (was_read, rest) =
          failing-none (http.read_all resp).1
            (failing (http.unmarshal (http.read_all resp).0).1
              ((http.unmarshal (http.read_all resp).0).0, none))
            id (simp yes_created at h) in
        let (parsed, same) =
          failing-none (http.unmarshal (http.read_all resp).0).1
            ((http.unmarshal (http.read_all resp).0).0, none) id rest in
        record {
          arrived = refl;
          created = (nat_eq.equals_iff _ _).0 yes_created;
          was_read = was_read;
          decoded = ground (arith, same, parsed);
        }
    | inr other ↦ cc (simp other at h)
  ]

  IsCreated-answer_of :
      (answer : Returns Response) (id : String)
      → IsCreated answer id
      → answer_of http answer ≡ (id, none)
  IsCreated-answer_of (resp, some err) id c = cc (c.arrived)
  IsCreated-answer_of (resp, none) id c =
      simp ((nat_eq.equals_iff _ _).1 c.created) (simp (c.was_read, c.decoded) refl)

  sent_iff :
      (o : Option Error) (params : InvokeParams) (s : S) (id : String)
      → ((elim o as (λ x. M S (Returns String)) [
        | some err ↦ pure ("", some err)
        | none ↦ http.send (request_for params) >>= λ answered. pure (answer_of http answered)
      ]
            s).0
          ≡ (id, none))
        ↔ ((o ≡ none) × IsCreated (http.send (request_for params) s).0 id)
  sent_iff none params s id =
      ((λ h. (refl, answer_of-IsCreated _ id h)), λ (ok, c). IsCreated-answer_of _ id c)
  sent_iff (some e) params s id = ((λ h. cc), λ (ok, c). cc)

  -- `sendRequest` returns an id and no error exactly if the request could be made, and its answer
  -- has status 201 and a body that could be read and decoded into that id.
  pub send_request_iff :
      (params : InvokeParams) (s : S) (id : String)
      → ((send_request http params s).0 ≡ (id, none)) ↔ (
          (http.new_request (request_for params).method (request_for params).url ≡ none)
          × IsCreated (http.send (request_for params) s).0 id)
  unfolding send_request
  send_request_iff params s id =
      sent_iff (http.new_request (request_for params).method (request_for params).url) params s id
