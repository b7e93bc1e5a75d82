-- ===== src/Clientset/Jobs.antt =====
-- From a clientset to its client of Jobs for a namespace: `Jobs` of job_client.go and `newJobs` of
-- job.go there.
use test_concurrent_reconcil.Base.{String, Option, none, some}
use test_concurrent_reconcil.JobClient.Typed.{Rest, Jobs}
use test_concurrent_reconcil.JobClient.Fake.{Fake, FakeJobs}
use test_concurrent_reconcil.Clientset.Fake.{FakeClientset}
use test_concurrent_reconcil.Clientset.{CustomV1alpha1Client, Clientset, client_rest_client}

module _ {S J L Wt O : Type 0} where
  abbrev pub on_namespace : String → Option (Rest S J L Wt O) → Option (Jobs S J L Wt O)
  on_namespace namespace none = none
  on_namespace namespace (some client) = some (record { client = client; ns = namespace })

  -- `none` is a `jobs` whose client is nil, every method of which panics.
  abbrev pub new_jobs :
      Option (CustomV1alpha1Client (Rest S J L Wt O)) → String → Option (Jobs S J L Wt O)
  new_jobs c namespace = on_namespace namespace (client_rest_client c)

  abbrev pub custom_jobs :
      {D : Type 0} → Clientset (Rest S J L Wt O) D → String → Option (Jobs S J L Wt O)
  custom_jobs c namespace = new_jobs c.custom_v1alpha1 namespace

-- A value of `rest.Interface`: nil, or a `*rest.RESTClient`, which may itself be nil.
pub data RestInterface (C : Type 0) : Type 0 where
  nil_interface : RestInterface C
  pointer : Option C → RestInterface C

-- fake/fake_job_client.go: `FakeCustomV1alpha1` is the `testing.Fake` of a fake clientset, as
-- client-go lets one invoke it.
module _ {T S J LM Wt Sel : Type 0} (invoking : FakeClientset T → Fake S J LM Wt Sel) where
  abbrev pub fake_custom_v1alpha1 : FakeClientset T → Fake S J LM Wt Sel
  fake_custom_v1alpha1 c = invoking c

  abbrev pub fake_custom_jobs : FakeClientset T → String → FakeJobs S J LM Wt Sel
  fake_custom_jobs c namespace = record { fake = fake_custom_v1alpha1 c; ns = namespace }

-- `RESTClient` of the fake is a nil pointer, and so no nil interface.
abbrev pub fake_rest_client : {C : Type 0} → RestInterface C
fake_rest_client = pointer none
