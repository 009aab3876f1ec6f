-- ===== src/Errors.antt =====
-- The error values of badgelib's badge_err.h (a submodule of the repository), as far as the modelled
-- code names them. An operation takes what `*ec` holds before the call and returns what it holds
-- after it; where `ec` is NULL this is the local `ec0` that some operations put in its place.
use badger_os.Base.{Bool, true, false}

pub data Location : Type 0 where
  unknown blkdev filesystem process : Location

pub data Cause : Type 0 where
  param readonly range nomem timeout illegal : Cause

pub data Status : Type 0 where
  ok : Status
  failed : Location → Cause → Status

abbrev pub is_ok : Status → Bool
is_ok ok = true
is_ok (failed l c) = false
