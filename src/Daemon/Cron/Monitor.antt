-- ===== src/Daemon/Cron/Monitor.antt =====
-- The monitor of a job: a payload that has not changed is skipped.
use darius.Base.{
  ◌≡◌, refl, sym, ap, subst, ◌∙◌, String, Bool, true, not, Option, none, some, str_eq, if_cases,
  string_key, get, put, get-put, Reply, ok, visit-found,
}
use darius.Daemon.Cron.{CronError, CronJob, Jobs, Answer, hash_is, note_hash, check_and_update_hash}

-- A hash that is there answers each comparison as the hash itself would.
hash_is-same :
    (o : Option String) (hash next : String)
    → hash_is o hash ≡ true
    → hash_is o next ≡ str_eq hash next
hash_is-same none hash next e = cc e
hash_is-same (some prior) hash next e = ap (λ p. str_eq p next) (string_key.same→≡ prior hash e)

-- Behind `note_hash`, the job has the hash.
note_hash-hash_is :
    (hash next : String) (job : CronJob)
    → hash_is (note_hash hash job).1.last_output_hash next ≡ str_eq hash next
unfolding note_hash
note_hash-hash_is hash next job =
    if_cases
      (λ (r : Reply CronError Bool × CronJob). hash_is r.1.last_output_hash next ≡ str_eq hash next)
      (hash_is job.last_output_hash hash) _ _ (λ e. hash_is-same job.last_output_hash hash next e)
      (λ _. refl)

note_hash-answer :
    (hash : String) (job : CronJob)
    → (note_hash hash job).0 ≡ ok (not (hash_is job.last_output_hash hash))
unfolding note_hash
note_hash-answer hash job =
    if_cases
      (λ (r : Reply CronError Bool × CronJob). r.0 ≡ ok (not (hash_is job.last_output_hash hash)))
      (hash_is job.last_output_hash hash) _ _ (λ e. rw e) (λ e. rw e)

check-found :
    (hash_of : String → String) (id payload : String) (jobs : Jobs) (job : CronJob)
    → get id jobs ≡ some job
    → check_and_update_hash hash_of id payload jobs
      ≡ ((note_hash (hash_of payload) job).0, put id (note_hash (hash_of payload) job).1 jobs)
unfolding check_and_update_hash
check-found hash_of id payload jobs job e =
    visit-found _ id (note_hash (hash_of payload)) jobs job e

-- A job of the scheduler whose payload was checked is told to run at the next check exactly where
-- the hash of the payload then is another one.
pub check_twice :
    (hash_of : String → String) (id payload next : String) (jobs : Jobs) (job : CronJob)
    → get id jobs ≡ some job
    → (check_and_update_hash hash_of id next (check_and_update_hash hash_of id payload jobs).1).0
      ≡ ok (not (str_eq (hash_of payload) (hash_of next)))
check_twice hash_of id payload next jobs job e =
    let noted = (note_hash (hash_of payload) job).1 in
    let goal : Answer Bool → Type 0 = λ p.
      (check_and_update_hash hash_of id next p.1).0
      ≡ ok (not (str_eq (hash_of payload) (hash_of next))) in
    subst goal (sym (check-found hash_of id payload jobs job e)) (
      ap (λ (p : Answer Bool). p.0)
        (check-found hash_of id next (put id noted jobs) noted (get-put id noted jobs))
      ∙ (note_hash-answer (hash_of next) noted
          ∙ ap (λ b. ok (not b)) (note_hash-hash_is (hash_of payload) (hash_of next) job)))
