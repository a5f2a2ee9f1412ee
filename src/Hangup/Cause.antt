-- ===== src/Hangup/Cause.antt =====
-- `ASTERISK_HANGUP_CAUSE` of src/modules/calls/utils/ari-hangup.util.ts: Q.850 causes.
use comm_care.Prelude.{ℕ}

abbrev pub user_busy : ℕ
user_busy = 17

abbrev pub no_user_response : ℕ
no_user_response = 18

abbrev pub no_answer : ℕ
no_answer = 19

abbrev pub call_rejected : ℕ
call_rejected = 21

abbrev pub recovery_on_timer_expire : ℕ
recovery_on_timer_expire = 102
