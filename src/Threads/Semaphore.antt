-- ===== src/Threads/Semaphore.antt =====
-- POSIX semaphores as the counters that semaphore.h documents, and the loops of queue_sem.c and
-- main.c that post or take several times.
use osa_sp.Base.{ℕ, zero, suc, ◌+◌, ◌-◌, ◌^◌, ◌≤◌, ◌≡◌, arith, ◌==◌, if◌then◌else◌}

-- `SEM_VALUE_MAX`
abbrev pub sem_value_max : ℕ
sem_value_max = 2 ^ 31 - 1

-- `sem_post`; at the maximum it fails and leaves the semaphore alone.
abbrev pub sem_post : ℕ → ℕ
sem_post value = if value == sem_value_max then value else value + 1

-- `sem_trywait`; at 0 it fails (EAGAIN) and leaves the semaphore alone.
abbrev pub sem_trywait : ℕ → ℕ
sem_trywait value = if value == 0 then value else value - 1

-- `sem_post` so many times
pub post_loop : ℕ → ℕ → ℕ
post_loop zero value = value
post_loop (suc n) value = post_loop n (sem_post value)

-- `sem_trywait` so many times
pub trywait_loop : ℕ → ℕ → ℕ
trywait_loop zero value = value
trywait_loop (suc n) value = trywait_loop n (sem_trywait value)

pub post_loop_lem : (n value : ℕ) → value + n ≤ sem_value_max → post_loop n value ≡ value + n
unfolding post_loop
post_loop_lem zero value h = omega arith
post_loop_lem (suc n) value h = ground (arith, post_loop_lem n (value + 1) (omega arith))

pub trywait_loop_lem : (n value : ℕ) → trywait_loop n value ≡ value - n
unfolding trywait_loop
trywait_loop_lem zero value = omega arith
trywait_loop_lem (suc n) value =
    ground (arith, trywait_loop_lem n value, trywait_loop_lem n (value - 1))
