-- ===== src/Charts/Counts.antt =====
-- Every system call and every socket is counted once.
use drishtiscope_oss.Common.{ℕ, suc, ◌+◌, ◌≡◌, List, [], ◌∷◌, length, nat_eq, arith, if◌then◌else◌}
use drishtiscope_oss.Charts.{
  SyscallCounts, count_syscall, count_syscalls, TcpCounts, count_flow, count_flows, no_flows,
  tcp_state_data,
}
use drishtiscope_oss.Protocol.{SyscallStat, NetFlow}

abbrev pub sum_counts : SyscallCounts → ℕ
sum_counts c = c.io + c.sync + c.net + c.proc + c.mem

abbrev pub sum_rates : List SyscallStat → ℕ
sum_rates [] = 0
sum_rates (s ∷ stats) = s.count_s + sum_rates stats

count_syscall-sum :
    (c : SyscallCounts) (s : SyscallStat)
    → sum_counts (count_syscall c s) ≡ sum_counts c + s.count_s
unfolding count_syscall
count_syscall-sum c s = ground arith

-- The five categories share out the rates of the system calls: together they grow by the sum.
pub count_syscalls-sum :
    (c : SyscallCounts) (stats : List SyscallStat)
    → sum_counts (count_syscalls c stats) ≡ sum_counts c + sum_rates stats
unfolding count_syscalls
count_syscalls-sum c [] = omega arith
count_syscalls-sum c (s ∷ stats) =
    omega (arith, count_syscalls-sum (count_syscall c s) stats, count_syscall-sum c s)

abbrev pub sum_sockets : TcpCounts → ℕ
sum_sockets c = c.established + c.close_wait + c.time_wait + c.listen

count_flow-sum : (c : TcpCounts) (f : NetFlow) → sum_sockets (count_flow c f) ≡ suc (sum_sockets c)
unfolding count_flow
count_flow-sum c f = ground arith

count_flows-sum :
    (c : TcpCounts) (flows : List NetFlow)
    → sum_sockets (count_flows c flows) ≡ sum_sockets c + length flows
unfolding count_flows
count_flows-sum c [] = omega arith
count_flows-sum c (f ∷ flows) =
    omega (arith, count_flows-sum (count_flow c f) flows, count_flow-sum c f)

-- The four socket states of the chart add up to the number of the flows, or to the 7 of the sample
-- figures when there are none.
pub sockets_total :
    (flows : List NetFlow)
    → sum_sockets (tcp_state_data flows) ≡ (if nat_eq (length flows) 0 then 7 else length flows)
unfolding tcp_state_data
sockets_total flows = ground (arith, count_flows-sum no_flows flows)
