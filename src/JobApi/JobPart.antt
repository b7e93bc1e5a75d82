-- ===== src/JobApi/JobPart.antt =====
-- The copy of a Job keeps to what the library documents of the copies of its parts.
use test_concurrent_reconcil.Base.{
  ℕ, ◌≡◌, refl, ◌∙◌, Bool, true, false, ◌||◌, String, arith, ◌⊎◌, inl, inr,
}
use test_concurrent_reconcil.Kube.{Memory}
use test_concurrent_reconcil.JobApi.{Part, TypeMeta, JobSpec, Job}
use test_concurrent_reconcil.JobApi.DeepCopy.{job_deep_copy_into}
use test_concurrent_reconcil.JobApi.Parts.{
  Extends, Extends-trans, IsLive, IsFresh, Documented, view-stays, IsLive-stays, IsFresh-stays,
}

or_cases : (a b : Bool) → (a || b) ≡ true → (a ≡ true) ⊎ (b ≡ true)
or_cases true b h = inl refl
or_cases false b h = inr h

or_right : (a b : Bool) → b ≡ true → (a || b) ≡ true
or_right true b h = refl
or_right false b h = h

or_left : (a b : Bool) → a ≡ true → (a || b) ≡ true
or_left true b h = refl
or_left false b h = cc

module _ {C Om Ds OmV DsV : Type 0} (om : Part C Om OmV) (ds : Part C Ds DsV) where
  -- A Job's value is that of its fields with all that they point at.
  abbrev pub job_part : Part C (Job Om Ds) (TypeMeta × OmV × JobSpec × DsV × String)
  job_part = record {
    view = λ j f. (
      j.type_meta,
      om.view j.object_meta f,
      j.spec,
      ds.view j.status.status f,
      j.status.job_run_id,
    );
    reaches = λ j f a. om.reaches j.object_meta f a || ds.reaches j.status.status f a;
    deep_copy_into = job_deep_copy_into om ds;
  }

  module _ (dom : Documented om) (dds : Documented ds) (j : Job Om Ds) (m : Memory C)
      (live : IsLive job_part j m) where
    abbrev meta : Om
    meta = j.object_meta

    abbrev st : Ds
    st = j.status.status

    -- The memory between the two copies.
    abbrev m1 : Memory C
    m1 = (om.deep_copy_into meta m).1

    meta_live : IsLive om meta m
    meta_live a h = live a (or_left (om.reaches meta m.at a) (ds.reaches st m.at a) h)

    status_live : IsLive ds st m
    status_live a h = live a (or_right (om.reaches meta m.at a) (ds.reaches st m.at a) h)

    status_live1 : IsLive ds st m1
    status_live1 = IsLive-stays ds dds status_live (dom.extends meta m)

    job_same :
        let (out, n) = job_deep_copy_into om ds j m in job_part.view out n.at ≡ job_part.view j m.at
    unfolding job_deep_copy_into
    job_same =
        let view_meta : om.view (om.deep_copy_into meta m).0 (ds.deep_copy_into st m1).1.at
            ≡ om.view meta m.at =
          view-stays om dom (dom.live meta m meta_live) (dds.extends st m1)
          ∙ dom.same meta m meta_live in
        let view_status : ds.view (ds.deep_copy_into st m1).0 (ds.deep_copy_into st m1).1.at
            ≡ ds.view st m.at =
          dds.same st m1 status_live1 ∙ view-stays ds dds status_live (dom.extends meta m) in
        cc (view_meta, view_status)

    job_live : let (out, n) = job_deep_copy_into om ds j m in IsLive job_part out n
    unfolding job_deep_copy_into
    job_live a h = elim (or_cases _ _ h) [
      | inl in_meta ↦ IsLive-stays om dom (dom.live meta m meta_live) (dds.extends st m1) a in_meta
      | inr in_status ↦ dds.live st m1 status_live1 a in_status
    ]

    job-IsFresh : let (out, n) = job_deep_copy_into om ds j m in IsFresh job_part m.size out n
    unfolding job_deep_copy_into
    job-IsFresh a h = elim (or_cases _ _ h) [
      | inl in_meta ↦
          IsFresh-stays om dom (dom.live meta m meta_live) (dds.extends st m1)
            (dom.fresh meta m meta_live) a in_meta
      | inr in_status ↦
          omega (arith, dds.fresh st m1 status_live1 a in_status, (dom.extends meta m).grows)
    ]

  module _ (dom : Documented om) (dds : Documented ds) where
    job_local :
        (j : Job Om Ds) (f g : ℕ → C)
        → ((a : ℕ) → job_part.reaches j f a ≡ true → g a ≡ f a)
        → (job_part.view j g ≡ job_part.view j f)
          × ((a : ℕ) → job_part.reaches j g a ≡ job_part.reaches j f a)
    job_local j f g h =
        let in_meta = λ (a : ℕ) (r : om.reaches j.object_meta f a ≡ true).
          h a (or_left _ (ds.reaches j.status.status f a) r) in
        let in_status = λ (a : ℕ) (r : ds.reaches j.status.status f a ≡ true).
          h a (or_right (om.reaches j.object_meta f a) _ r) in
        (
          cc (dom.local j.object_meta f g in_meta, dds.local j.status.status f g in_status),
          λ a. cc (
            dom.reaches_local j.object_meta f g in_meta a,
            dds.reaches_local j.status.status f g in_status a,
          ),
        )

    pub job-Documented : Documented job_part
    unfolding job_deep_copy_into
    job-Documented = record {
      same = job_same dom dds;
      live = job_live dom dds;
      fresh = job-IsFresh dom dds;
      extends = λ j m. job_extends j m;
      local = λ j f g h. (job_local j f g h).0;
      reaches_local = λ j f g h. (job_local j f g h).1;
    }
      where
        job_extends : (j : Job Om Ds) (m : Memory C) → Extends m (job_deep_copy_into om ds j m).1
        job_extends j m =
            Extends-trans (dom.extends j.object_meta m)
              (dds.extends j.status.status (om.deep_copy_into j.object_meta m).1)
