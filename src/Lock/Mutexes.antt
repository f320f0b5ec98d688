-- ===== src/Lock/Mutexes.antt =====
-- include/mutex.hpp: the classes that the scoped locks wrap. pthreads is the parameter `k`.
pub mod Restores
use fiber_async.Prelude.{◌≡◌, ◌≢◌, refl, Option, some, none, Bool, true, false}
use fiber_async.Lock.{Call, lock, rdlock, wrlock, unlock}

-- What pthreads documents of its locks, as one thread uses them: a call is `none` where it does not
-- return, as long as no other thread acts. Unlocking after a lock gives back what was there.
pub record PthreadLocks : Type 1 where
  pub Mutex : Type 0
  pub mutex_lock : Mutex → Option Mutex
  pub mutex_unlock : Mutex → Option Mutex
  pub mutex_undo : (s s' : Mutex) → mutex_lock s ≡ some s' → mutex_unlock s' ≡ some s
  pub RwLock : Type 0
  pub rwlock_rdlock : RwLock → Option RwLock
  pub rwlock_wrlock : RwLock → Option RwLock
  pub rwlock_unlock : RwLock → Option RwLock
  pub rdlock_undo : (s s' : RwLock) → rwlock_rdlock s ≡ some s' → rwlock_unlock s' ≡ some s
  pub wrlock_undo : (s s' : RwLock) → rwlock_wrlock s ≡ some s' → rwlock_unlock s' ≡ some s
  pub Spin : Type 0
  pub spin_lock : Spin → Option Spin
  pub spin_unlock : Spin → Option Spin
  pub spin_undo : (s s' : Spin) → spin_lock s ≡ some s' → spin_unlock s' ≡ some s

-- What a scoped lock asks of the class that it wraps.
pub record Lockable : Type 1 where
  pub State : Type 0
  pub call : Call → State → Option State
  pub undo : (c : Call) (s s' : State) → c ≢ unlock → call c s ≡ some s' → call unlock s' ≡ some s

-- Calls that a class does not have.
abbrev missing : {A : Type 0} → A → Option A
missing s = none

-- NullMutex.
pub null_mutex_call : Call → Unit {0} → Option (Unit {0})
null_mutex_call lock s = some s
null_mutex_call rdlock s = missing s
null_mutex_call wrlock s = missing s
null_mutex_call unlock s = some s

pub null_mutex_undo :
    (c : Call) (s s' : Unit {0})
    → c ≢ unlock
    → null_mutex_call c s ≡ some s'
    → null_mutex_call unlock s' ≡ some s
unfolding null_mutex_call
null_mutex_undo c s s' h e = refl

-- NullRWMutex.
pub null_rw_call : Call → Unit {0} → Option (Unit {0})
null_rw_call lock s = missing s
null_rw_call rdlock s = some s
null_rw_call wrlock s = some s
null_rw_call unlock s = some s

pub null_rw_undo :
    (c : Call) (s s' : Unit {0})
    → c ≢ unlock
    → null_rw_call c s ≡ some s'
    → null_rw_call unlock s' ≡ some s
unfolding null_rw_call
null_rw_undo c s s' h e = refl

-- CASLock: `lock()` goes round while the flag is set.
pub cas_call : Call → Bool → Option Bool
cas_call lock true = none
cas_call lock false = some true
cas_call rdlock s = missing s
cas_call wrlock s = missing s
cas_call unlock s = some false

pub cas_undo :
    (c : Call) (s s' : Bool) → c ≢ unlock → cas_call c s ≡ some s' → cas_call unlock s' ≡ some s
unfolding cas_call
cas_undo lock true s' h e = cc
cas_undo lock false s' h e = refl
cas_undo rdlock s s' h e = cc
cas_undo wrlock s s' h e = cc
cas_undo unlock s s' h e = absurd (h refl)

pub data Class : Type 0 where
  mutex null_mutex rw_mutex null_rw_mutex spinlock cas_lock : Class

module _ (k : PthreadLocks) where
  -- Mutex.
  pub mutex_call : Call → k.Mutex → Option k.Mutex
  mutex_call lock s = k.mutex_lock s
  mutex_call rdlock s = missing s
  mutex_call wrlock s = missing s
  mutex_call unlock s = k.mutex_unlock s

  -- RWMutex.
  unfoldable pub rw_call : Call → k.RwLock → Option k.RwLock
  rw_call lock s = missing s
  rw_call rdlock s = k.rwlock_rdlock s
  rw_call wrlock s = k.rwlock_wrlock s
  rw_call unlock s = k.rwlock_unlock s

  -- Spinlock.
  pub spin_call : Call → k.Spin → Option k.Spin
  spin_call lock s = k.spin_lock s
  spin_call rdlock s = missing s
  spin_call wrlock s = missing s
  spin_call unlock s = k.spin_unlock s

  pub mutex_undo_lem :
      (c : Call) (s s' : k.Mutex)
      → c ≢ unlock
      → mutex_call c s ≡ some s'
      → mutex_call unlock s' ≡ some s
  unfolding mutex_call
  mutex_undo_lem lock s s' h e = k.mutex_undo s s' e
  mutex_undo_lem rdlock s s' h e = cc
  mutex_undo_lem wrlock s s' h e = cc
  mutex_undo_lem unlock s s' h e = absurd (h refl)

  pub rw_undo_lem :
      (c : Call) (s s' : k.RwLock) → c ≢ unlock → rw_call c s ≡ some s' → rw_call unlock s' ≡ some s
  unfolding rw_call
  rw_undo_lem lock s s' h e = cc
  rw_undo_lem rdlock s s' h e = k.rdlock_undo s s' e
  rw_undo_lem wrlock s s' h e = k.wrlock_undo s s' e
  rw_undo_lem unlock s s' h e = absurd (h refl)

  pub spin_undo_lem :
      (c : Call) (s s' : k.Spin)
      → c ≢ unlock
      → spin_call c s ≡ some s'
      → spin_call unlock s' ≡ some s
  unfolding spin_call
  spin_undo_lem lock s s' h e = k.spin_undo s s' e
  spin_undo_lem rdlock s s' h e = cc
  spin_undo_lem wrlock s s' h e = cc
  spin_undo_lem unlock s s' h e = absurd (h refl)

  -- The classes, each as what the scoped locks ask for.
  abbrev pub lockable : Class → Lockable
  lockable mutex = record { State = k.Mutex; call = mutex_call; undo = mutex_undo_lem }
  lockable null_mutex = record { State = Unit {0}; call = null_mutex_call; undo = null_mutex_undo }
  lockable rw_mutex = record { State = k.RwLock; call = rw_call; undo = rw_undo_lem }
  lockable null_rw_mutex = record { State = Unit {0}; call = null_rw_call; undo = null_rw_undo }
  lockable spinlock = record { State = k.Spin; call = spin_call; undo = spin_undo_lem }
  lockable cas_lock = record { State = Bool; call = cas_call; undo = cas_undo }
