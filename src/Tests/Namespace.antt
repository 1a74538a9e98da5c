-- ===== src/Tests/Namespace.antt =====
-- src/mitm: a set-up of the network whose calls succeed, but for the routes.
use airgap.Prelude.{
  ℕ, true, false, List, [], ◌∷◌, none, some, codes, Result, ok, err, ◌≡◌, refl, arith, nat_eq,
}
use airgap.Mitm.Netns.{
  Call, open_tun, open_netns, add_route, setns, unshare_mounts, index_of, tun_name, Event, Net,
  call, attempt, enter_new_netns, open_thread_netns, loopback_up, configure_interface,
}
use airgap.Mitm.Netns.Create.{nonblocking, padded, set_nonblocking, attach, create}
use airgap.Mitm.Netns.Netstack.{send, stack_new, signal_ready, netstack_thread}
use airgap.Mitm.Netns.Runs.{did, Within}
use airgap.Mitm.Netns.Closing.{Balanced, create-Balanced}
use airgap.Mitm.Netns.Start.{
  Mitm, fresh, first_signal, stashed, start_netstack, child_setup_hook, hook,
}
use airgap.Mitm.Netns.Joined.{IsPrepared, Started, start_netstack-Started, hook-Joined}

abbrev answers : List Event → Call → Result ℕ ℕ
answers tr open_tun = ok 3
answers tr open_netns = ok 4
answers tr (index_of name) = ok 2
answers tr (add_route idx v6) = err 101
answers tr c = ok 0

abbrev net : Net
net = record { answer = answers; received = λ tr. true }

abbrev before : Mitm
before = record {
  new_conn_tx = true;
  new_conn_rx = true;
  netns_fd = none;
  resolv_path = codes "/tmp/airgap-mitm-1/resolv.conf";
}

abbrev behind : Mitm
behind = record before { new_conn_tx = false; netns_fd = some 4 }

started : start_netstack net none before ≡ some (ok tt, behind)
unfolding start_netstack netstack_thread send stack_new signal_ready call attempt enter_new_netns
    open_thread_netns loopback_up configure_interface nonblocking padded set_nonblocking attach
    create first_signal stashed
started = refl

start_netstack-Started_example : Started net none before (start_netstack net none before)
start_netstack-Started_example = start_netstack-Started net none before refl

hooked : child_setup_hook behind ≡ ok (4, codes "/tmp/airgap-mitm-1/resolv.conf")
unfolding child_setup_hook
hooked = refl

ran : (hook net (4, codes "/tmp/airgap-mitm-1/resolv.conf") fresh).0 ≡ ok tt
unfolding hook call attempt
ran = refl

hook-Joined_example :
    IsPrepared net 4
    × Within
        (did unshare_mounts ∷ did (setns 4) ∷ [])
        (hook net (4, codes "/tmp/airgap-mitm-1/resolv.conf") fresh).1.trace
hook-Joined_example =
    hook-Joined net net none before behind (4, codes "/tmp/airgap-mitm-1/resolv.conf") refl started
      hooked ran

create-Balanced_example : Balanced fresh (create net tun_name fresh)
create-Balanced_example = create-Balanced net tun_name fresh (λ tr fd h. (0, refl)) (omega arith)
