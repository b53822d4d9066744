-- ===== src/Boot/Main/Up.antt =====
-- `kernel_main` of kernel/src/main.rs from reset to the switch into the first process.
use beyond_os1k.Base.{ℕ, ◌+◌, ◌*◌, ◌≤◌, ◌<◌, ◌≡◌, ◌≢◌, refl, ◌∙◌, inl, arith, List, ok}
use beyond_os1k.SpinLock.{new}
use beyond_os1k.Allocator.{Symbols, IsLinked, Ram}
use beyond_os1k.Allocator.Bump.{frontier, IsBump, pages}
use beyond_os1k.Process.{create_process, first_unused, byte}
use beyond_os1k.Process.Alive.{IsAlive, IsCreated-IsAlive, IsAlive-kept}
use beyond_os1k.Process.Bytes.{byte-agree}
use beyond_os1k.Process.KernelTables.{IsCreated, create_process-kernel}
use beyond_os1k.Process.UserTables.{IsUserCreated, create_process-user}
use beyond_os1k.Boot.Idle.{with_idle}
use beyond_os1k.Boot.Main.{Image}
use beyond_os1k.Boot.Main.Processes.{
  Outside, table, with_a, with_b, IsLayout, IsUp, kernel_regs, IsUserSpace-from,
}

module _ {k : Symbols} {i : Image} {stack : ℕ → ℕ} (layout : IsLayout k i stack) where
  -- what the linker's order says of the first four stacks
  pub ranks :
      (i.bss ≤ stack 0)
      × (stack 0 + 8192 ≤ stack 1)
      × (stack 1 + 8192 ≤ stack 2)
      × (stack 2 + 8192 ≤ stack 3)
      × (stack 3 + 8192 ≤ k.free_ram)
  ranks = omega (
    arith,
    layout.first,
    layout.last,
    layout.behind,
    layout.apart 0 (omega arith),
    layout.apart 1 (omega arith),
    layout.apart 2 (omega arith),
    layout.apart 3 (omega arith),
    layout.apart 4 (omega arith),
    layout.apart 5 (omega arith),
    layout.apart 6 (omega arith),
  )

  -- The image of the shell lies below the stacks, and is kept.
  pub image_kept :
      {sp entry status root : ℕ} {r r' : Ram}
      → i.bss ≤ sp
      → IsBump k r
      → IsCreated k sp entry status root r r'
      → (x : ℕ) → x < i.shell_size
      → byte r'.word (i.shell_start + x) ≡ byte r.word (i.shell_start + x)
  image_kept {sp} {entry} {status} {root} {r} {r'} above bump c x lt =
      byte-agree r.word r'.word (i.shell_start + x) (
        c.framed.kept _ (omega (arith, layout.loaded, ranks, bump.low))
          (inl (omega (arith, layout.loaded))))

module _ (k : Symbols) (linked : IsLinked k) (i : Image) (grow : ℕ → ℕ → ℕ) (stack : ℕ → ℕ)
    (layout : IsLayout k i stack)
    (enough : pages i.shell_size ≤ grow i.shell_size (pages i.shell_size))
    (some_bytes : i.shell_size ≢ 0) (small : i.shell_size ≤ 0x400000) where
  module _ {status0 status idle a b shell q top : ℕ} {r ra rb r' : Ram} (bump : IsBump k r)
      (alive : IsAlive k (stack 0 + 8124) (kernel_regs i.idle_process status0 idle) idle r)
      (ca : IsCreated k (stack 1 + 8124) i.proc_a_entry status a r ra)
      (cb : IsCreated k (stack 2 + 8124) i.proc_b_entry status b ra rb)
      (c : IsUserCreated k top
        (stack 3 + 8124)
        (stack 3 + 8192)
        i.user_entry
        status
        i.shell_start
        i.shell_size
        q
        shell
        rb
        r') where
    processes-IsUp : IsUp k i stack status0 status r.word idle a b shell r'
    processes-IsUp =
        let idle1 =
          IsAlive-kept linked bump alive ca.framed (omega (arith, ca.taken))
            (omega (arith, ranks layout)) (omega (arith, ranks layout)) in
        let idle2 =
          IsAlive-kept linked ca.framed.bump idle1 cb.framed (omega (arith, cb.taken))
            (omega (arith, ranks layout)) (omega (arith, ranks layout)) in
        let a1 =
          IsAlive-kept linked ca.framed.bump (IsCreated-IsAlive ca) cb.framed
            (omega (arith, cb.taken)) (omega (arith, ranks layout)) (omega (arith, ranks layout)) in
        record {
          idle_alive = last_kept (omega (arith, ranks layout)) idle2;
          a_alive = last_kept (omega (arith, ranks layout)) a1;
          b_alive = last_kept (omega (arith, ranks layout)) (IsCreated-IsAlive cb);
          image = q;
          shell_space =
              IsUserSpace-from
                (λ x h.
                  image_kept layout (omega (arith, ranks layout)) ca.framed.bump cb x h
                  ∙ image_kept layout (omega (arith, ranks layout)) bump ca x h)
                c.tables;
          shell_frame = c.framed.frame;
          bump = c.framed.bump;
        }
      where
        last_kept :
            {sp root : ℕ} {regs : List ℕ}
            → sp + 68 ≤ stack 3
            → IsAlive k sp regs root rb
            → IsAlive k sp regs root r'
        last_kept below there =
            IsAlive-kept linked cb.framed.bump there c.framed (omega (arith, c.taken)) (omega arith)
              (omega (arith, ranks layout))

  module _ (status0 status idle : ℕ) where
    -- The processes A, B and the shell, after the idle process.
    pub processes_lem :
        (r : Ram)
        → IsBump k r
        → IsAlive k (stack 0 + 8124) (kernel_regs i.idle_process status0 idle) idle r
        → frontier k r
            + 110 * 4096
            + 2 * pages i.shell_size
            + pages (grow i.shell_size (pages i.shell_size))
          ≤ k.free_ram_end
        → (a : ℕ) × (b : ℕ) × (shell : ℕ) × (ra : Ram) × (rb : Ram) × (r' : Ram) × (create_process k
              grow stack status i.proc_a_entry 0 0
              (new (with_idle (stack 0 + 8124) idle))
              r
            ≡ ok (2, new (with_a stack idle a), ra))
          × (create_process k grow stack status i.proc_b_entry 0 0 (new (with_a stack idle a)) ra
              ≡ ok (3, new (with_b stack idle a b), rb))
          × (create_process k grow stack status i.user_entry i.shell_start i.shell_size
                (new (with_b stack idle a b))
                rb
              ≡ ok (4, new (table stack idle a b shell), r'))
          × IsUp k i stack status0 status r.word idle a b shell r'
          × ((x : ℕ)
              → x < frontier k r
              → Outside stack 1 x
              → Outside stack 2 x
              → Outside stack 3 x
              → r'.word x ≡ r.word x)
    unfolding first_unused
    processes_lem r bump alive room =
        let (a, ra, run_a, ca) =
          create_process-kernel k linked grow stack status i.proc_a_entry 0
            (with_idle (stack 0 + 8124) idle) 1 r bump (omega arith) refl
            (omega (arith, ranks layout)) in
        let (b, rb, run_b, cb) =
          create_process-kernel k linked grow stack status i.proc_b_entry 0 (with_a stack idle a) 2
            ra ca.framed.bump (omega (arith, ca.taken)) refl (omega (arith, ranks layout)) in
        let (shell, q, r', run, c) =
          create_process-user k linked grow stack status i.user_entry i.shell_start i.shell_size
            (with_b stack idle a b) 3 rb cb.framed.bump (omega (arith, ca.taken, cb.taken)) enough
            some_bytes small (omega (arith, layout.loaded, ranks layout)) refl
            (omega (arith, ranks layout)) in
        (
          a,
          b,
          shell,
          ra,
          rb,
          r',
          run_a,
          run_b,
          run,
          processes-IsUp bump alive ca cb c,
          λ x low off_a off_b off.
              c.framed.kept x (omega (arith, ca.taken, cb.taken)) (ground (arith, off))
              ∙ cb.framed.kept x (omega (arith, ca.taken)) (ground (arith, off_b))
              ∙ ca.framed.kept x low (ground (arith, off_a)),
        )
