-- ===== src/Catalog/Data.antt =====
-- values/tasks.py: the record of one task, the vocabulary of the install modes and the catalog, in
-- the order the run resolves it.
use Prim.Native.String.{String}
use pyntara.Shared.{List, [], ◌∷◌, ◌++◌}
use pyntara.Text.{Text, codes}

-- `depends` names the tasks that must run before it, `modes` the install modes it belongs to.
pub record TaskSpec : Type 0 where
  pub name : Text
  pub description : Text
  pub depends : List Text
  pub modes : List Text

abbrev pub modes : List Text
modes = codes "minimal" ∷ codes "server" ∷ codes "desktop" ∷ codes "fast_desktop" ∷ []

abbrev task_spec : String → String → List Text → List Text → TaskSpec
task_spec name description depends in_modes = record {
  name = codes name;
  description = codes description;
  depends = depends;
  modes = in_modes;
}

abbrev first_tasks : List TaskSpec
first_tasks =
    task_spec "add_extra_repos"
      "Enable extra Ubuntu archive components: universe, restricted, multiverse." [] modes
    ∷ task_spec "hostname" "Generate and persist random hostname." [] modes
    ∷ task_spec "btrfs_setup"
        "Ready the btrfs filesystem: compression, the subvolume of the points and the subvolume of the swap area, the maintenance schedule and the boot menu that shows the save points."
        (codes "add_extra_repos" ∷ []) modes
    ∷ task_spec "swapfile_service_install"
        "Calculate and configure swapfile from RAM and free disk space." [] modes
    ∷ task_spec "zram_service" "Configure aggressive ZRAM by CPU and RAM."
        (codes "swapfile_service_install" ∷ []) modes
    ∷ task_spec "zswap_service" "Configure aggressive zswap compressed swap cache with zstd."
        (codes "swapfile_service_install" ∷ []) modes
    ∷ task_spec "local_vault_setup" "Setup local vault for secrets storage"
        (codes "zram_service" ∷ []) modes
    ∷ task_spec "system_metrics_setup"
        "Deploy and run the System Metrics service with periodic vault checks."
        (codes "local_vault_setup" ∷ []) modes
    ∷ task_spec "ssh_daemon_setup" "Install and configure SSH service with passwordless login keys."
        [] modes
    ∷ task_spec "ssh_client_setup" "Configure system-wide SSH client defaults through a drop-in." []
        modes
    ∷ task_spec "port_forwarding_setup"
        "Deploy the Auto Port Forwarding service that keeps reverse ssh tunnels to the vault port-forwarding servers."
        (codes "ssh_daemon_setup"
          ∷ codes "local_vault_setup"
          ∷ codes "system_metrics_setup"
          ∷ codes "hostname"
          ∷ [])
        modes
    ∷ task_spec "kde_keyboard_setup" "Configure KDE keyboard layouts and the layout indicator." []
        (codes "desktop" ∷ codes "fast_desktop" ∷ [])
    ∷ task_spec "kde_settings" "Set the dark color scheme and the dark global theme for KDE." []
        (codes "desktop" ∷ codes "fast_desktop" ∷ [])
    ∷ task_spec "keyring_setup"
        "Create the KDE wallet without a password, so a machine that logs in automatically is never asked for one."
        (codes "kde_settings" ∷ []) (codes "desktop" ∷ codes "fast_desktop" ∷ [])
    ∷ []

abbrev middle_tasks : List TaskSpec
middle_tasks =
    task_spec "vocalinux_setup"
      "Install Vocalinux voice dictation from the AppImage release and configure it for the desktop user."
      (codes "add_extra_repos" ∷ []) (codes "desktop" ∷ [])
    ∷ task_spec "nextdns_setup_system_wide"
        "Select and record the machine's NextDNS profile without configuring a resolver."
        (codes "local_vault_setup" ∷ codes "hostname" ∷ []) []
    ∷ task_spec "dnsproxy_setup"
        "Run dnsproxy as the system-wide DNS resolver with NextDNS and fallback servers."
        (codes "local_vault_setup" ∷ codes "hostname" ∷ codes "nextdns_setup_system_wide" ∷ [])
        modes
    ∷ task_spec "tmp_to_disk"
        "Move the temporary directory onto the disk: copy what the memory mount holds, remove the fstab entry that asks for it, mask the unit that mounts it and release the mount of the running session."
        [] (codes "desktop" ∷ codes "fast_desktop" ∷ [])
    ∷ task_spec "i2pd_service_setup"
        "Install and configure the latest i2pd from GitHub releases as a system service."
        (codes "add_extra_repos" ∷ [])
        (codes "server" ∷ codes "desktop" ∷ codes "fast_desktop" ∷ [])
    ∷ task_spec "yggdrasil_service_setup"
        "Install the latest yggdrasil from GitHub releases as a system service." []
        (codes "server" ∷ codes "desktop" ∷ codes "fast_desktop" ∷ [])
    ∷ task_spec "tor_setup" "Install Tor and publish the SSH service as an onion service."
        (codes "add_extra_repos" ∷ [])
        (codes "server" ∷ codes "desktop" ∷ codes "fast_desktop" ∷ [])
    ∷ task_spec "three_x_ui_xray_setup"
        "Install the 3x-ui Xray panel as a system service, serve the universal server inbound, and make this machine a client of the remote server: a local proxy inbound plus the routing policy that sends each connection to the right outbound."
        (codes "yggdrasil_service_setup" ∷ codes "tor_setup" ∷ codes "i2pd_service_setup" ∷ [])
        (codes "server" ∷ codes "desktop" ∷ codes "fast_desktop" ∷ [])
    ∷ task_spec "sotavpn_setup"
        "Install the Sotavpn bridge for the desktop user, subscribe the panel to the server list of the paid account, and point the remote classes of the local proxy at the least-ping pool of the Sota nodes and the remote server."
        (codes "three_x_ui_xray_setup" ∷ [])
        (codes "server" ∷ codes "desktop" ∷ codes "fast_desktop" ∷ [])
    ∷ task_spec "rustdesk_setup"
        "Install and configure the RustDesk remote desktop client with a per-machine password."
        (codes "local_vault_setup" ∷ []) (codes "desktop" ∷ codes "fast_desktop" ∷ [])
    ∷ task_spec "imagemagick_setup"
        "Install ImageMagick from the Ubuntu archive and deploy the tuned security policy."
        (codes "add_extra_repos" ∷ []) (codes "minimal" ∷ codes "server" ∷ codes "desktop" ∷ [])
    ∷ task_spec "ffmpeg_setup" "Install ffmpeg from the Ubuntu archive."
        (codes "add_extra_repos" ∷ []) (codes "minimal" ∷ codes "server" ∷ codes "desktop" ∷ [])
    ∷ task_spec "upnp_forwarding_setup"
        "Deploy the service and timer that ask the home router through UPnP to forward the SSH port of this machine."
        (codes "ssh_daemon_setup" ∷ codes "system_metrics_setup" ∷ codes "hostname" ∷ []) modes
    ∷ task_spec "system_metrics_initial_collect"
        "Run the system metrics collector once to send the network report right after provisioning."
        (codes "system_metrics_setup" ∷ []) modes
    ∷ []

abbrev last_tasks : List TaskSpec
last_tasks =
    task_spec "chrome_setup"
      "Install Google Chrome, apply the browser settings from the chromium-default-settings repository, and start the browser through the local Xray proxy with the DevTools listener."
      (codes "three_x_ui_xray_setup" ∷ []) (codes "desktop" ∷ [])
    ∷ task_spec "firefox_setup"
        "Install Firefox from the official Mozilla apt repository in place of the snap, apply the browser defaults of the firefox-default-settings repository and set Firefox as the default browser."
        [] (codes "desktop" ∷ [])
    ∷ task_spec "install_gui_apps"
        "Install the graphical applications from the Ubuntu archive and pin their launchers to the Plasma taskbar."
        [] (codes "desktop" ∷ codes "fast_desktop" ∷ [])
    ∷ task_spec "snap_remove"
        "Remove the snap subsystem and every snap it carries, and return the space they held." []
        (codes "minimal" ∷ codes "server" ∷ codes "desktop" ∷ [])
    ∷ task_spec "playwright_setup"
        "Install the playwright-cli browser control tool for the desktop user."
        (codes "add_extra_repos" ∷ codes "chrome_setup" ∷ []) (codes "desktop" ∷ [])
    ∷ task_spec "cli_tools_lite_setup"
        "Install the everyday console utilities: shell, file, storage, security, network and archive tools."
        (codes "add_extra_repos" ∷ []) modes
    ∷ task_spec "cli_tools_heavy_setup"
        "Install the media and document tools: images, audio, video, PDF, ebooks and OCR."
        (codes "add_extra_repos" ∷ []) (codes "minimal" ∷ codes "server" ∷ codes "desktop" ∷ [])
    ∷ task_spec "telegram_setup"
        "Install the latest Telegram Desktop for the desktop user with auto-update." []
        (codes "desktop" ∷ [])
    ∷ task_spec "scrcpy_setup"
        "Install the scrcpy Android screen mirroring client for the desktop user from the GitHub release, with the Ubuntu archive as the fallback."
        (codes "add_extra_repos" ∷ []) (codes "desktop" ∷ [])
    ∷ task_spec "ventoy_install"
        "Install the latest Ventoy release and the menu entry that creates a multiboot USB drive."
        [] (codes "desktop" ∷ codes "fast_desktop" ∷ [])
    ∷ task_spec "btrfs_recompress"
        "Compress the data that is already on the btrfs filesystem once and balance the chunks, as a background job the user can watch."
        (codes "btrfs_setup" ∷ []) modes
    ∷ task_spec "btrfs_points_setup"
        "Store the immutable save point and its writable work copy in the points subvolume and show both in the boot menu."
        (codes "btrfs_setup" ∷ codes "btrfs_recompress" ∷ []) modes
    ∷ task_spec "commit_final_system_metrics"
        "Commit the runtime vault and the encrypted telemetry PDF into System Metrics."
        (codes "system_metrics_setup" ∷ []) modes
    ∷ []

abbrev pub catalog : List TaskSpec
catalog = first_tasks ++ (middle_tasks ++ last_tasks)
