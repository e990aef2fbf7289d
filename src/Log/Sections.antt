-- ===== src/Log/Sections.antt =====
-- Critical sections of the log's spin locks: what a body under a free lock comes to.
use mathlib.Core.Path.{fun_ext}
use ztyco.Base.{
  ℕ, ◌≡◌, ap, sym, ◌∙◌, inl, inr, true, false, ◌==◌, ==_refl, ==_iff, update, Bool-cases,
}
use ztyco.Log.{
  done, Logs, M, ◌>>=◌, ◌>>◌, lock_appender, unlock_appender, lock_logger, unlock_logger,
}

module _ {ℓ} {A : Type ℓ} (f : ℕ → A) (a : ℕ) where
  -- A change at one address that is taken back, and one that is made again.
  pub restored : (x y : A) → f a ≡ x → update (update f a y) a x ≡ f
  restored x y e = fun_ext (λ b. elim (Bool-cases (a == b)) [
    | inl here ↦ rw here (sym e ∙ ap f ((==_iff a b).0 here))
    | inr away ↦ rw away
  ])

  pub rewritten : (x y : A) → update (update f a y) a x ≡ update f a x
  rewritten x y =
      fun_ext (λ b. elim (Bool-cases (a == b)) [ inl here ↦ rw here | inr away ↦ rw away ])

pub >>=-done :
    {A B : Type 0} (m : M A) (f : A → M B) (s t : Logs) (a : A)
    → m s ≡ done (a, t)
    → (m >>= f) s ≡ f a t
>>=-done m f s t a e = rw (e, ◌>>=◌)

-- The stores with the lock of one object taken and given back.
abbrev pub taken : ℕ → Logs → Logs
taken a s = record s {
  appenders = update s.appenders a (record (s.appenders a) { is_locked = true });
}

abbrev pub released : ℕ → Logs → Logs
released a s = record s {
  appenders = update s.appenders a (record (s.appenders a) { is_locked = false });
}

pub under_lock :
    (a : ℕ) (body : M (Unit {0})) (s t : Logs)
    → (s.appenders a).is_locked ≡ false
    → body (taken a s) ≡ done (tt, t)
    → (lock_appender a >> (body >> unlock_appender a)) s ≡ done (tt, released a t)
under_lock a body s t h e =
    >>=-done (lock_appender a) (λ _. body >> unlock_appender a) s (taken a s) tt (rw h)
    ∙ >>=-done body (λ _. unlock_appender a) (taken a s) t tt e

abbrev pub taken_logger : ℕ → Logs → Logs
taken_logger l s = record s {
  loggers = update s.loggers l (record (s.loggers l) { is_locked = true });
}

abbrev pub released_logger : ℕ → Logs → Logs
released_logger l s = record s {
  loggers = update s.loggers l (record (s.loggers l) { is_locked = false });
}

pub under_logger_lock :
    (l : ℕ) (body : M (Unit {0})) (s t : Logs)
    → (s.loggers l).is_locked ≡ false
    → body (taken_logger l s) ≡ done (tt, t)
    → (lock_logger l >> (body >> unlock_logger l)) s ≡ done (tt, released_logger l t)
under_logger_lock l body s t h e =
    >>=-done (lock_logger l) (λ _. body >> unlock_logger l) s (taken_logger l s) tt (rw h)
    ∙ >>=-done body (λ _. unlock_logger l) (taken_logger l s) t tt e

-- A logger whose lock was taken and given back is as it was.
pub relocked :
    (s : Logs) (l : ℕ)
    → (s.loggers l).is_locked ≡ false
    → (released_logger l (taken_logger l s)).loggers ≡ s.loggers
relocked s l h = rw (==_refl l) (
    restored s.loggers l (record (s.loggers l) { is_locked = false })
      (record (s.loggers l) { is_locked = true })
      (ap (λ b. record (s.loggers l) { is_locked = b }) h))
