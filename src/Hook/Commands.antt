-- ===== src/Hook/Commands.antt =====
-- src/hook.cc: the commands of fcntl that the hooked function passes on, that is all but F_SETFL and
-- F_GETFL. The system's fcntl is the parameter `raw`; which argument it takes for a command that the
-- source does not name is the parameter `takes`.
use fiber_async.Prelude.{ℕ, ◌≡◌, refl, Outcome, ok, fail, Failure, ◌>>=◌, ℤ, arith}

pub data Cmd : Type 0 where
  f_dupfd f_dupfd_cloexec f_setfd f_setown f_setsig f_setlease f_notify f_setpipe_sz : Cmd
  f_getfd f_getown f_getsig f_getlease f_getpipe_sz : Cmd
  f_setlk f_setlkw f_getlk : Cmd
  f_getown_ex f_setown_ex : Cmd
  other : ℕ → Cmd

-- The argument behind the command.
pub data VaArg : Type 0 where
  nothing : VaArg
  an_int : ℕ → VaArg
  a_pointer : ℕ → VaArg

-- va_arg: undefined unless there is an argument of the type.
pub va_int : VaArg → Outcome VaArg
va_int nothing = fail Failure.undefined
va_int (an_int n) = ok (an_int n)
va_int (a_pointer p) = fail Failure.undefined

pub va_pointer : VaArg → Outcome VaArg
va_pointer nothing = fail Failure.undefined
va_pointer (an_int n) = fail Failure.undefined
va_pointer (a_pointer p) = ok (a_pointer p)

-- The argument that goes on to the system's function.
pub passed_on : Cmd → VaArg → Outcome VaArg
unfolding va_int va_pointer
passed_on f_dupfd a = va_int a
passed_on f_dupfd_cloexec a = va_int a
passed_on f_setfd a = va_int a
passed_on f_setown a = va_int a
passed_on f_setsig a = va_int a
passed_on f_setlease a = va_int a
passed_on f_notify a = va_int a
passed_on f_setpipe_sz a = va_int a
passed_on f_getfd a = ok nothing
passed_on f_getown a = ok nothing
passed_on f_getsig a = ok nothing
passed_on f_getlease a = ok nothing
passed_on f_getpipe_sz a = ok nothing
passed_on f_setlk a = va_pointer a
passed_on f_setlkw a = va_pointer a
passed_on f_getlk a = va_pointer a
passed_on f_getown_ex a = va_pointer a
passed_on f_setown_ex a = va_pointer a
passed_on (other n) a = ok nothing

-- What kind of argument a command takes, as fcntl(2) documents it.
pub data ArgKind : Type 0 where
  no_arg int_arg pointer_arg : ArgKind

abbrev pub documented : (ℕ → ArgKind) → Cmd → ArgKind
documented takes f_dupfd = int_arg
documented takes f_dupfd_cloexec = int_arg
documented takes f_setfd = int_arg
documented takes f_setown = int_arg
documented takes f_setsig = int_arg
documented takes f_setlease = int_arg
documented takes f_notify = int_arg
documented takes f_setpipe_sz = int_arg
documented takes f_getfd = no_arg
documented takes f_getown = no_arg
documented takes f_getsig = no_arg
documented takes f_getlease = no_arg
documented takes f_getpipe_sz = no_arg
documented takes f_setlk = pointer_arg
documented takes f_setlkw = pointer_arg
documented takes f_getlk = pointer_arg
documented takes f_getown_ex = pointer_arg
documented takes f_setown_ex = pointer_arg
documented takes (other n) = takes n

abbrev pub kind_of_arg : VaArg → ArgKind
kind_of_arg nothing = no_arg
kind_of_arg (an_int n) = int_arg
kind_of_arg (a_pointer p) = pointer_arg

-- What the hooked function leaves of the argument: it drops that of a command that it does not name.
abbrev pub kept : Cmd → VaArg → VaArg
kept (other n) a = nothing
kept f_dupfd a = a
kept f_dupfd_cloexec a = a
kept f_setfd a = a
kept f_setown a = a
kept f_setsig a = a
kept f_setlease a = a
kept f_notify a = a
kept f_setpipe_sz a = a
kept f_getfd a = a
kept f_getown a = a
kept f_getsig a = a
kept f_getlease a = a
kept f_getpipe_sz a = a
kept f_setlk a = a
kept f_setlkw a = a
kept f_getlk a = a
kept f_getown_ex a = a
kept f_setown_ex a = a

module _ (Kernel : Type 0) (raw : Kernel → ℤ → Cmd → VaArg → Kernel × ℤ) where
  -- fcntl, for these commands.
  pub fcntl_other : Kernel → ℤ → Cmd → VaArg → Outcome (Kernel × ℤ)
  unfolding passed_on
  fcntl_other kernel fd cmd arg = passed_on cmd arg >>= λ a. ok (raw kernel fd cmd a)

  -- A call with the argument that fcntl(2) documents always returns, and does what the system's call
  -- with the same command and argument does, but for the commands that the source does not name: those
  -- go on without their argument.
  pub fcntl_other-eq_raw :
      (takes : ℕ → ArgKind) (kernel : Kernel) (fd : ℤ) (cmd : Cmd) (arg : VaArg)
      → kind_of_arg arg ≡ documented takes cmd
      → fcntl_other kernel fd cmd arg ≡ ok (raw kernel fd cmd (kept cmd arg))
  unfolding fcntl_other passed_on va_int va_pointer
  fcntl_other-eq_raw takes kernel fd (other n) arg h = refl
  fcntl_other-eq_raw takes kernel fd cmd nothing h = ground arith
  fcntl_other-eq_raw takes kernel fd cmd (an_int n) h = ground arith
  fcntl_other-eq_raw takes kernel fd cmd (a_pointer p) h = ground arith
